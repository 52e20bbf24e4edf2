-- ===== src/Mpsc/Registry/Operations.antt =====
-- Registering, replacing and unregistering, as operations on the map from ids to behaviours.
use rtactor_rs.Base.{
  ℕ, ◌+◌, ◌%◌, ◌<◌, ◌≡◌, refl, Bool, false, ◌⊎◌, inl, inr, Option, none, some, arith, ◌==◌,
  if◌then◌else◌, u64_mod, Option-cases,
}
use rtactor_rs.Actor.Message.{Env, Addr, invalid, reactive, active, async}
use rtactor_rs.Actor.World.{World, generate_actor_id}
use rtactor_rs.Mpsc.Registry.{
  MpscDispatcher, replaced, refused, index_of, register_reactive, unregister_reactive_by_id,
  replace_reactive_by_id, replace_reactive, unregister_reactive,
}
use rtactor_rs.Mpsc.Registry.Lookup.{
  behavior_at, Ordered, Ordered-append, Ordered-set, Ordered-erase_idx, sort_by_key-append,
  behavior_at-append, behavior_at-fresh, index_of-none, index_of-some, behavior_at-set,
  behavior_at-erase_idx,
}

-- An address leads to the reactive actor with an id.
abbrev pub leads_to : Addr → ℕ → Bool
leads_to (reactive tx id) j = id == j
leads_to _ j = false

module _ {u : Env} where
  -- The list is sorted by distinct ids that were given out, and the dispatcher's own is not in it.
  pub record IsValid (m : MpscDispatcher u) (w : World u) : Type 0 where
    pub ordered : Ordered 0 w.next_actor_id m.reactive_list
    pub own_given : m.disp_actor_id < w.next_actor_id
    pub own_free : behavior_at m.disp_actor_id m.reactive_list ≡ none

  -- The behaviour that an address leads to.
  abbrev pub behavior_of : MpscDispatcher u → Addr → Option u.Behavior
  behavior_of m (reactive tx id) = behavior_at id m.reactive_list
  behavior_of m _ = none

  -- Registering gives an address with an id that no registered actor has, keeps the dispatcher
  -- well formed, and adds just that behaviour, as long as the counter of ids does not wrap.
  pub register_reactive_lem :
      (m : MpscDispatcher u) (b : u.Behavior) (w : World u) (j : ℕ)
      → IsValid m w
      → w.next_actor_id + 1 < u64_mod
      → let (a, m', w') = register_reactive m b w in
        (a ≡ reactive m.tx w.next_actor_id)
        × (behavior_of m a ≡ none)
        × IsValid m' w'
        × (behavior_at j m'.reactive_list
            ≡ (if w.next_actor_id == j then some b else behavior_at j m.reactive_list))
  unfolding register_reactive generate_actor_id
  register_reactive_lem m b w j v h =
      let l = m.reactive_list in
      let n = w.next_actor_id in
      let sorted = sort_by_key-append 0 n l b v.ordered in
      let wraps : (n + 1) % u64_mod ≡ n + 1 = omega arith in
      (
        refl,
        behavior_at-fresh 0 n l v.ordered,
        record {
          ordered = rw (sorted, wraps) (Ordered-append 0 n l b v.ordered);
          own_given = rw wraps (omega (arith, v));
          own_free =
              rw sorted (ground (arith, behavior_at-append 0 n m.disp_actor_id l b v.ordered, v));
        },
        rw sorted (behavior_at-append 0 n j l b v.ordered),
      )

  replace_by_id :
      (m : MpscDispatcher u) (id : ℕ) (b : u.Behavior) (w : World u) (j : ℕ)
      → IsValid m w
      → let (r, m') = replace_reactive_by_id m id b in
        ((behavior_at id m.reactive_list ≡ none) × (r ≡ refused b) × (m' ≡ m))
        ⊎ ((old : u.Behavior) × (behavior_at id m.reactive_list ≡ some old)
            × (r ≡ replaced old)
            × IsValid m' w
            × (behavior_at j m'.reactive_list
                ≡ (if id == j then some b else behavior_at j m.reactive_list)))
  unfolding replace_reactive_by_id
  replace_by_id m id b w j v = elim (Option-cases (index_of id m.reactive_list)) [
    | inl e ↦ inl (index_of-none id m.reactive_list e, ground arith, ground arith)
    | inr (i, e) ↦
        let l = m.reactive_list in
        let (old, here, at) = index_of-some id l i e in
        let own = behavior_at-set id m.disp_actor_id l i b e in
        let kept = Ordered-set 0 w.next_actor_id id l i b e v.ordered in
        inr (
          old,
          here,
          ground arith,
          ground (arith, v, own, kept),
          ground (arith, behavior_at-set id j l i b e),
        )
  ]

  -- Replacing at an address that leads to a registered behaviour hands that one over, puts the new
  -- one in its place and changes no other; at any other address it gives the new one back and
  -- changes nothing. The dispatcher stays well formed.
  pub replace_reactive_lem :
      (m : MpscDispatcher u) (a : Addr) (b : u.Behavior) (w : World u) (j : ℕ)
      → IsValid m w
      → let (r, m') = replace_reactive m a b in
        ((behavior_of m a ≡ none) × (r ≡ refused b) × (m' ≡ m))
        ⊎ ((old : u.Behavior) × (behavior_of m a ≡ some old)
            × (r ≡ replaced old)
            × IsValid m' w
            × (behavior_at j m'.reactive_list
                ≡ (if leads_to a j then some b else behavior_at j m.reactive_list)))
  unfolding replace_reactive
  replace_reactive_lem m invalid b w j v = inl (refl, refl, refl)
  replace_reactive_lem m (reactive tx id) b w j v = replace_by_id m id b w j v
  replace_reactive_lem m (active id tx) b w j v = inl (refl, refl, refl)
  replace_reactive_lem m (async id tx) b w j v = inl (refl, refl, refl)

  unregister_by_id :
      (m : MpscDispatcher u) (id : ℕ) (w : World u) (j : ℕ)
      → IsValid m w
      → let (r, m') = unregister_reactive_by_id m id in
        (r ≡ behavior_at id m.reactive_list)
        × IsValid m' w
        × (behavior_at j m'.reactive_list
            ≡ (if id == j then none else behavior_at j m.reactive_list))
  unfolding unregister_reactive_by_id
  unregister_by_id m id w j v = elim (Option-cases (index_of id m.reactive_list)) [
    | inl e ↦
        let gone = index_of-none id m.reactive_list e in
        (ground arith, ground (arith, v), ground arith)
    | inr (i, e) ↦
        let l = m.reactive_list in
        let (old, here, at) = index_of-some id l i e in
        let own = behavior_at-erase_idx 0 w.next_actor_id id m.disp_actor_id l i v.ordered e in
        let kept = Ordered-erase_idx 0 w.next_actor_id l i v.ordered in
        (
          ground arith,
          ground (arith, v, own, kept),
          ground (arith, behavior_at-erase_idx 0 w.next_actor_id id j l i v.ordered e),
        )
  ]

  -- Unregistering gives the behaviour that the address leads to, if any, takes it out, changes no
  -- other, and keeps the dispatcher well formed.
  pub unregister_reactive_lem :
      (m : MpscDispatcher u) (a : Addr) (w : World u) (j : ℕ)
      → IsValid m w
      → let (r, m') = unregister_reactive m a in
        (r ≡ behavior_of m a)
        × IsValid m' w
        × (behavior_at j m'.reactive_list
            ≡ (if leads_to a j then none else behavior_at j m.reactive_list))
  unfolding unregister_reactive
  unregister_reactive_lem m invalid w j v = (refl, v, refl)
  unregister_reactive_lem m (reactive tx id) w j v = unregister_by_id m id w j v
  unregister_reactive_lem m (active id tx) w j v = (refl, v, refl)
  unregister_reactive_lem m (async id tx) w j v = (refl, v, refl)
