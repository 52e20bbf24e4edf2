-- ===== src/Tests/Dispatchers.antt =====
-- A dispatcher with two registered actors.
use rtactor_rs.Base.{ℕ, ◌≡◌, refl, none, some, List, [], ◌∷◌, arith, ◌⊎◌}
use rtactor_rs.Actor.Message.{
  reactive, active, value, boxed, request, err_response, actor_disappeared,
}
use rtactor_rs.Actor.World.{World, MessageAndDstId}
use rtactor_rs.Mpsc.Registry.{
  replaced, refused, register_reactive, replace_reactive, unregister_reactive,
}
use rtactor_rs.Mpsc.Registry.Lookup.{behavior_at}
use rtactor_rs.Mpsc.Registry.Operations.{
  IsValid, behavior_of, register_reactive_lem, replace_reactive_lem, unregister_reactive_lem,
}
use rtactor_rs.Mpsc.Process.{drop_queued_messages}
use rtactor_rs.Mpsc.Dropped.{drop_dispatcher, IsGone, drop_dispatcher_lem}
use rtactor_rs.Actor.Delivery.{receive_notification}
use rtactor_rs.Mpsc.Process.Answers.{with_more}
use rtactor_rs.Tests.Sample.{sample_env, sample_world, sample_dispatcher, two_places}

abbrev queued : List (MessageAndDstId sample_env)
queued =
    record { message = request (active 3 0) 8 (value 1); dst_id = 2 }
    ∷ record { message = request (reactive 0 4) 9 (value 2); dst_id = 2 }
    ∷ []

abbrev busy : World sample_env
busy = sample_world queued []

sample-IsValid : IsValid sample_dispatcher busy
sample-IsValid = record { ordered = omega arith; own_given = omega arith; own_free = refl }

register_reactive_lem_example :
    let (a, m, w) = register_reactive sample_dispatcher 9 busy in
    (a ≡ reactive 0 5)
    × (behavior_of sample_dispatcher a ≡ none)
    × IsValid m w
    × (behavior_at 5 m.reactive_list ≡ some 9)
register_reactive_lem_example =
    register_reactive_lem sample_dispatcher 9 busy 5 sample-IsValid (omega arith)

replace_reactive_lem_example :
    let (r, m) = replace_reactive sample_dispatcher (reactive 0 4) 9 in
    ((behavior_of sample_dispatcher (reactive 0 4) ≡ none)
      × (r ≡ refused 9)
      × (m ≡ sample_dispatcher))
    ⊎ ((old : ℕ) × (behavior_of sample_dispatcher (reactive 0 4) ≡ some old)
        × (r ≡ replaced old)
        × IsValid m busy
        × (behavior_at 4 m.reactive_list ≡ some 9))
replace_reactive_lem_example =
    replace_reactive_lem sample_dispatcher (reactive 0 4) 9 busy 4 sample-IsValid

unregister_reactive_lem_example :
    let (r, m) = unregister_reactive sample_dispatcher (reactive 0 4) in
    (r ≡ some 7) × IsValid m busy × (behavior_at 4 m.reactive_list ≡ none)
unregister_reactive_lem_example =
    unregister_reactive_lem sample_dispatcher (reactive 0 4) busy 4 sample-IsValid

-- Another thread sends a notification while the dispatcher is dropped.
abbrev meanwhile : World sample_env → World sample_env
meanwhile w = (receive_notification (reactive 0 2) (value 5) w).0

drop_dispatcher_lem_example :
    ((drop_queued_messages sample_dispatcher busy).active_channels 0
      ≡ with_more (two_places []) (err_response 8 actor_disappeared (boxed (value 1)) ∷ []))
    × ((drop_dispatcher sample_dispatcher meanwhile busy).active_channels
        ≡ (meanwhile (drop_queued_messages sample_dispatcher busy)).active_channels)
    × IsGone 0 (drop_dispatcher sample_dispatcher meanwhile busy)
drop_dispatcher_lem_example =
    drop_dispatcher_lem sample_dispatcher meanwhile busy 0 refl (omega arith)
