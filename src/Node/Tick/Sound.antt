-- ===== src/Node/Tick/Sound.antt =====
-- crates/tiny-io-oi/src/node.rs: the bounds of the tables of a node.
use tiny_io_oi.Prelude.{ℕ, List, [], ◌∷◌, ◌∙◌, ◌≡◌, length, length-map, map, Option, none, some}
use tiny_io_oi.Protocol.{NodeId, OpCode}
use tiny_io_oi.Scores.{decay, decay_entry, clear_entry, Entry}
use tiny_io_oi.Scores.Update.{length-update}
use tiny_io_oi.Cache.Bounds.{IsCache, expire-IsCache, hear-IsCache}
use tiny_io_oi.Node.{Platform, Node, enter_safe_mode}
use tiny_io_oi.Node.Handlers.{on_gossip, apply_first}
use tiny_io_oi.Node.Tick.{tick}
use tiny_io_oi.Node.Tick.Stable.{Stable, Carries, tick-keeps}

length-decay : (scores : List Entry) → length (decay scores) ≡ length scores
unfolding decay
length-decay scores =
    length-map (map decay_entry scores) clear_entry ∙ length-map scores decay_entry

module _ (platform : Platform) (size : ℕ) where
  open platform use {board}

  -- The score table has the size it was made with, and the cache holds at most eight assertions,
  -- one for each sender.
  pub record IsSound (n : Node platform) : Type 0 where
    pub table : length n.scores ≡ size
    pub cache : IsCache n.recent_gossip

  abbrev Any : List ℕ → Type 0
  Any payload = Unit

  apply_first-IsSound :
      (n : Node platform) (payload : List ℕ) → IsSound n → IsSound (apply_first platform payload n)
  apply_first-IsSound n [] s = s
  apply_first-IsSound n (delta ∷ rest) s = record { table = s.table; cache = s.cache }

  IsSound-Stable : Stable platform IsSound Any
  unfolding on_gossip enter_safe_mode
  IsSound-Stable = record {
    drives = λ n network motor s. record { table = s.table; cache = s.cache };
    flags = λ n safe active banned last s. record { table = s.table; cache = s.cache };
    votes = λ n id s. record { table = length-update n.scores id 100 ∙ s.table; cache = s.cache };
    hears = λ n payload s. record {
      table = s.table;
      cache = hear-IsCache payload n.recent_gossip s.cache;
    };
    applies = λ n payload q s. apply_first-IsSound n payload s;
    ages = λ n now s. record {
      table = length-decay n.scores ∙ s.table;
      cache = expire-IsCache now n.recent_gossip s.cache;
    };
    guards = λ n reason s. record { table = s.table; cache = s.cache };
  }

  Carries-Any : (m : Option (NodeId × OpCode × List ℕ)) → Carries platform Any m
  Carries-Any none = tt
  Carries-Any (some (sender, opcode, payload)) = tt

  -- A tick, whatever the network delivers, keeps the size of the score table and the bounds of the
  -- cache.
  pub tick-IsSound :
      (clock : ℕ → ℕ) (n : Node platform) → IsSound n → IsSound (tick platform clock n)
  tick-IsSound clock n s =
      tick-keeps platform IsSound Any IsSound-Stable clock n
        (λ network. Carries-Any (board.network_ops.receive network 256).1) s
