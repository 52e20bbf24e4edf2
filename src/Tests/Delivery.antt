-- ===== src/Tests/Delivery.antt =====
-- Messages to actors of each kind.
use rtactor_rs.Base.{◌≡◌, [], ◌∷◌}
use rtactor_rs.Actor.Message.{
  reactive, active, value, boxed, ok_response, err_response, notification, queue_full, timeout,
}
use rtactor_rs.Actor.World.{World}
use rtactor_rs.Actor.Delivery.{
  receive_request, receive_notification, receive_ok_response, receive_err_response,
}
use rtactor_rs.Actor.Delivery.Inbox.{inbox}
use rtactor_rs.Actor.Delivery.Outcome.{inbox-receive_request, receive-Delivers, Delivers}
use rtactor_rs.Tests.Sample.{sample_env, sample_laws, sample_world}

abbrev full_world : World sample_env
full_world = sample_world [] (notification (value 1) ∷ notification (value 2) ∷ [])

-- A request to a full mailbox is answered to its source, an actor of a dispatcher.
inbox-receive_request_example :
    inbox sample_laws
      (receive_request (active 3 0) (reactive 0 2) 9 (value 6) full_world)
      (reactive 0 2)
    ≡ err_response 9 queue_full (boxed (value 6)) ∷ []
unfolding sample_laws
inbox-receive_request_example =
    inbox-receive_request sample_laws full_world (active 3 0) (reactive 0 2) 9 (value 6)
      (reactive 0 2)

receive-Delivers_example :
    Delivers sample_laws full_world
      (reactive 0 2)
      (notification (value 6))
      (receive_notification (reactive 0 2) (value 6) full_world)
    × Delivers sample_laws full_world
        (reactive 0 2)
        (ok_response 3 (value 6))
        (receive_ok_response (reactive 0 2) 3 (value 6) full_world)
    × Delivers sample_laws full_world
        (reactive 0 2)
        (err_response 3 timeout (value 6))
        (receive_err_response (reactive 0 2) 3 timeout (value 6) full_world)
receive-Delivers_example =
    receive-Delivers sample_laws full_world (reactive 0 2) 3 timeout (value 6)
