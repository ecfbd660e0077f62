-- ===== src/Arena/Ownership.antt =====
-- crates/tiny-io-oi/src/unsafe_core.rs: what the handles of an arena may rely on.
use tiny_io_oi.Prelude.{
  get_or-set_self, All-split, All-join, ℕ, ◌+◌, ◌-◌, ◌%◌, ◌^◌, ◌<◌, List, ◌∷◌, ◌++◌, Option, none,
  some, ◌≡◌, sym, subst, ◌∙◌, refl, ap, arith, length, length-set, get_or, set,
}
use tiny_io_oi.Arena.{Arena, TinyArc, find_free, alloc, clone, drop_arc, get}
use tiny_io_oi.Arena.Handles.{Handle, IsHeld, find_free-zero, small_index}
use tiny_io_oi.Arena.Counts.{
  owners, IsOwned, owners-le, owners-append, set-counted, write-IsHeld, recount-IsHeld,
}

module _ {T : Type 0} where
  module _ (front back : List (Handle T)) (h : Handle T) (a : Arena T)
      (owned : IsOwned a (front ++ h ∷ back)) where
    abbrev slot : ℕ
    slot = h.arc.ref_count_ptr

    abbrev live : List (Handle T)
    live = front ++ h ∷ back

    IsHeld-here : IsHeld a h
    IsHeld-here = (All-split (IsHeld a) front (h ∷ back) owned.held).1.0

    abbrev count : ℕ
    count = get_or a.ref_counts slot 0

    -- With fewer than 2^16 - 1 live handles, a clone of one of them is one more live handle: it reads
    -- the same value, and every counter is again the number of live handles of its slot.
    pub clone-IsOwned :
        length (front ++ h ∷ back) < 2 ^ 16 - 1
        → IsOwned (clone h.arc a).0 (record h { arc = (clone h.arc a).1 } ∷ (front ++ h ∷ back))
    unfolding clone
    clone-IsOwned few =
        let v = (count + 1) % 2 ^ 16 in
        let a' = (clone h.arc a).0 in
        let same_size = length-set a.ref_counts slot v in
        record {
          sizes = omega (arith, owned.sizes, same_size);
          small = omega (arith, owned.small, same_size);
          counted =
              set-counted a.ref_counts slot v live (h ∷ live) IsHeld-here.within owned.counted
                (λ j ne. ground arith)
                (ground (arith, owned.counted slot, owners-le slot live, few));
          held = recount-IsHeld a a' (h ∷ live) refl same_size (IsHeld-here, owned.held);
        }

    -- With fewer than 2^16 live handles, after the drop of one of them every counter is the number
    -- of the handles that are left, and each of these still reads its value.
    pub drop_arc-IsOwned :
        length (front ++ h ∷ back) < 2 ^ 16 → IsOwned (drop_arc h.arc a) (front ++ back)
    unfolding drop_arc
    drop_arc-IsOwned few =
        let v = (count + 2 ^ 16 - 1) % 2 ^ 16 in
        let same_size = length-set a.ref_counts slot v in
        let parts = All-split (IsHeld a) front (h ∷ back) owned.held in
        record {
          sizes = omega (arith, owned.sizes, same_size);
          small = omega (arith, owned.small, same_size);
          counted =
              set-counted a.ref_counts slot v live (front ++ back) IsHeld-here.within owned.counted
                (λ j ne.
                  ground (arith, owners-append j front back, owners-append j front (h ∷ back)))
                (ground (
                  arith,
                  owned.counted slot,
                  owners-le slot live,
                  few,
                  owners-append slot front back,
                  owners-append slot front (h ∷ back),
                ));
          held =
              recount-IsHeld a (drop_arc h.arc a) (front ++ back) refl same_size
                (All-join (IsHeld a) front back parts.0 parts.1.1);
        }

  place-IsOwned :
      (value : T) (a : Arena T) (hs : List (Handle T)) (i : ℕ)
      → IsOwned a hs
      → i < length a.ref_counts
      → get_or a.ref_counts i 0 ≡ 0
      → IsOwned
          (record {
            data_slots = set a.data_slots i (some value);
            ref_counts = set a.ref_counts i 1;
          })
          (record { arc = record { index = i % 2 ^ 16; ref_count_ptr = i }; value = value } ∷ hs)
  unfolding get
  place-IsOwned value a hs i owned lt zero_count =
      let a' : Arena T = record {
        data_slots = set a.data_slots i (some value);
        ref_counts = set a.ref_counts i 1;
      } in
      let none_own : owners i hs ≡ 0 = sym (owned.counted i) ∙ zero_count in
      let same_size = length-set a.ref_counts i 1 in
      record {
        sizes = omega (arith, owned.sizes, same_size, length-set a.data_slots i (some value));
        small = omega (arith, owned.small, same_size);
        counted =
            set-counted a.ref_counts i 1 hs
              (record { arc = record { index = i % 2 ^ 16; ref_count_ptr = i }; value = value }
                ∷ hs)
              lt owned.counted (λ j ne. ground arith) (ground (arith, none_own));
        held = (
          record {
            within = omega (arith, lt, same_size);
            points = omega (arith, lt, owned.small);
            reads =
                ap (λ k. get_or (set a.data_slots i (some value)) k none)
                  (small_index i (omega (arith, lt, owned.small)))
                ∙ get_or-set_self a.data_slots i (some value) none (omega (arith, lt, owned.sizes));
          },
          write-IsHeld a a' i (some value) hs refl same_size none_own owned.held,
        );
      }

  -- Where every counter is the number of live handles, an allocation that returns a handle keeps it
  -- so: the new handle reads the value, and every other live handle still reads its own.
  pub alloc-IsOwned :
      (value : T) (a : Arena T) (hs : List (Handle T)) (arc : TinyArc)
      → IsOwned a hs
      → (alloc value a).1 ≡ some arc
      → IsOwned (alloc value a).0 (record { arc = arc; value = value } ∷ hs)
  unfolding alloc
  alloc-IsOwned value a hs arc owned = go (find_free a.ref_counts 0) refl
    where
      go :
          (f : Option ℕ)
          → find_free a.ref_counts 0 ≡ f
          → let r : Arena T × Option TinyArc = elim f [
            | none ↦ (a, none)
            | some i ↦ (
              record {
                data_slots = set a.data_slots i (some value);
                ref_counts = set a.ref_counts i 1;
              },
              some (record { index = i % 2 ^ 16; ref_count_ptr = i }),
            )
          ] in
            r.1 ≡ some arc → IsOwned r.0 (record { arc = arc; value = value } ∷ hs)
      go none f e = absurd cc
      go (some i) f e =
          let (k, q, lt, z) = find_free-zero a.ref_counts 0 i f in
          let same_index : k ≡ i = omega (arith, q) in
          let placed =
            place-IsOwned value a hs i owned (omega (arith, q, lt))
              (subst (λ j. get_or a.ref_counts j 0 ≡ 0) same_index z) in
          let same_arc : ◌≡◌ {A = TinyArc} (record { index = i % 2 ^ 16; ref_count_ptr = i }) arc =
            cc in
          subst
            (λ x.
              IsOwned
                (record {
                  data_slots = set a.data_slots i (some value);
                  ref_counts = set a.ref_counts i 1;
                })
                (record { arc = x; value = value } ∷ hs))
            same_arc placed
