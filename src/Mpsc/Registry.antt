-- ===== src/Mpsc/Registry.antt =====
-- `MpscDispatcher` of src/mpsc_dispatcher.rs and its list of registered behaviours.
pub mod Lookup
pub mod Operations
use mathlib.Core.Option
use rtactor_rs.Base.{
  ℕ, suc, Option, none, some, List, [], ◌∷◌, ◌++◌, ◌==◌, ltb, if◌then◌else◌, get_elem?, set,
  erase_idx,
}
use rtactor_rs.Actor.Message.{Env, Addr, invalid, reactive, active, async}
use rtactor_rs.Actor.World.{World, generate_actor_id}

-- Both ends of the dispatcher's queue are the channel `tx`.
pub record MpscDispatcher (u : Env) : Type 0 where
  pub disp_actor_id : ℕ
  pub tx : ℕ
  pub reactive_list : List (ℕ × u.Behavior)

-- A result whose error gives a value back.
pub data Replaced (B : Type 0) : Type 0 where
  replaced : B → Replaced B
  refused : B → Replaced B

module _ {B : Type 0} where
  -- `binary_search_by_key`: the list is sorted by distinct ids, so it finds the one position.
  unfoldable pub index_of : ℕ → List (ℕ × B) → Option ℕ
  index_of id [] = none
  index_of id ((k, b) ∷ l) = if k == id then some 0 else Option.map suc (index_of id l)

  insert_by_key : ℕ × B → List (ℕ × B) → List (ℕ × B)
  insert_by_key e [] = e ∷ []
  insert_by_key e (x ∷ l) = if ltb x.0 e.0 then x ∷ insert_by_key e l else e ∷ x ∷ l

  -- `sort_unstable_by_key(|element| element.0)`.
  unfoldable pub sort_by_key : List (ℕ × B) → List (ℕ × B)
  unfolding insert_by_key
  sort_by_key [] = []
  sort_by_key (x ∷ l) = insert_by_key x (sort_by_key l)

module _ {u : Env} where
  -- `build_owned_reactive_addr`, and `addr` at the dispatcher's own id.
  unfoldable pub build_owned_reactive_addr : MpscDispatcher u → ℕ → Addr
  build_owned_reactive_addr m id = reactive m.tx id

  unfoldable pub addr : MpscDispatcher u → Addr
  unfolding build_owned_reactive_addr
  addr m = build_owned_reactive_addr m m.disp_actor_id

  -- `get_behavior_index`.
  unfoldable pub get_behavior_index : MpscDispatcher u → ℕ → Option ℕ
  get_behavior_index m id = index_of id m.reactive_list

  -- `register_reactive`.
  unfoldable pub register_reactive :
      MpscDispatcher u → u.Behavior → World u → Addr × MpscDispatcher u × World u
  unfolding build_owned_reactive_addr
  register_reactive m b w =
      let (id, w') = generate_actor_id w in
      let m' = record m { reactive_list = sort_by_key (m.reactive_list ++ (id, b) ∷ []) } in
      (build_owned_reactive_addr m' id, m', w')

  -- `unregister_reactive_by_id`: `Vec::remove` at the position that was found.
  unfoldable pub unregister_reactive_by_id :
      MpscDispatcher u → ℕ → Option u.Behavior × MpscDispatcher u
  unfolding get_behavior_index
  unregister_reactive_by_id m id = elim (get_behavior_index m id) [
    | none ↦ (none, m)
    | some i ↦ (
      Option.map (λ e. e.1) (get_elem? m.reactive_list i),
      record m { reactive_list = erase_idx m.reactive_list i },
    )
  ]

  -- The `std::mem::swap` with the element at a position.
  unfoldable pub swap_at :
      MpscDispatcher u
      → ℕ
      → Option (ℕ × u.Behavior)
      → u.Behavior
      → Replaced u.Behavior × MpscDispatcher u
  swap_at m i none b = (refused b, m)
  swap_at m i (some (k, old)) b =
      (replaced old, record m { reactive_list = set m.reactive_list i (k, b) })

  -- `replace_reactive_by_id`.
  unfoldable pub replace_reactive_by_id :
      MpscDispatcher u → ℕ → u.Behavior → Replaced u.Behavior × MpscDispatcher u
  unfolding get_behavior_index swap_at
  replace_reactive_by_id m id b = elim (get_behavior_index m id) [
    | none ↦ (refused b, m)
    | some i ↦ swap_at m i (get_elem? m.reactive_list i) b
  ]

  -- `replace_reactive`.
  unfoldable pub replace_reactive :
      MpscDispatcher u → Addr → u.Behavior → Replaced u.Behavior × MpscDispatcher u
  unfolding replace_reactive_by_id
  replace_reactive m (reactive tx dst) b = replace_reactive_by_id m dst b
  replace_reactive m _ b = (refused b, m)

  -- `unregister_reactive`.
  unfoldable pub unregister_reactive :
      MpscDispatcher u → Addr → Option u.Behavior × MpscDispatcher u
  unfolding unregister_reactive_by_id
  unregister_reactive m (reactive tx dst) = unregister_reactive_by_id m dst
  unregister_reactive m _ = (none, m)
