-- ===== src/Mpsc/Loop/Fifo.antt =====
-- The order in which the loop of a dispatcher processes messages.
use rtactor_rs.Base.{
  ℕ, ◌≡◌, ◌≢◌, refl, sym, ap, subst, ◌∙◌, some, List, [], ◌∷◌, ◌++◌, All, arith, append-nil,
  append_assoc, Option-cases, inl, inr,
}
use rtactor_rs.Actor.Message.{Env}
use rtactor_rs.Actor.World.{World, MessageAndDstId}
use rtactor_rs.Actor.Delivery.Inbox.{messages_for}
use rtactor_rs.Mpsc.Process.{UserCode, Running}
use rtactor_rs.Mpsc.Process.Sending.{OnlySends}
use rtactor_rs.Mpsc.Extending.{Extends}
use rtactor_rs.Mpsc.Loop.{Tick, Phase, polling, blocking, stopped, process_step, process}
use rtactor_rs.Mpsc.Loop.Order.{queue_of, Step, Advances, process_step-Advances}

-- The steps of a run, with all messages that they take.
pub data Serves {u : Env} (code : UserCode u)
    : List (Tick u) → Running u → List (MessageAndDstId u) → Running u → Type 0 where
  done : {r : Running u} → Serves code [] r [] r
  next :
      {t : Tick u} {ts : List (Tick u)} {r r' r'' : Running u} {h hs : List (MessageAndDstId u)}
      → Step code t r h r'
      → Serves code ts r' hs r''
      → Serves code (t ∷ ts) r (h ++ hs) r''

module _ {u : Env} where
  messages_for-++ :
      (id : ℕ) (ms ns : List (MessageAndDstId u))
      → messages_for id (ms ++ ns) ≡ messages_for id ms ++ messages_for id ns
  messages_for-++ id [] ns = refl
  messages_for-++ id (m ∷ ms) ns = ground (arith, messages_for-++ id ms ns)

  order-++ :
      (a b c h hs k ks : List (MessageAndDstId u))
      → h ++ b ≡ a ++ k
      → hs ++ c ≡ b ++ ks
      → (h ++ hs) ++ c ≡ a ++ (k ++ ks)
  order-++ a b c h hs k ks p q =
      append_assoc h hs c
      ∙ ap (λ z. h ++ z) q
      ∙ sym (append_assoc h b ks)
      ∙ ap (λ z. z ++ ks) p
      ∙ append_assoc a k ks

  -- The other threads only send to the queues of dispatchers.
  abbrev pub OthersSend : List (Tick u) → Type 0
  OthersSend = All (λ t. (w : World u) → Extends w (t.others w))

module _ {u : Env} (code : UserCode u) where
  process_stopped :
      (ts : List (Tick u)) (r : Running u) → process code ts stopped r ≡ some (stopped, r)
  unfolding process process_step
  process_stopped [] r = refl
  process_stopped (t ∷ ts) r = process_stopped ts r

  -- The messages of a run, from the front of the queue to its end.
  pub record InOrder (ts : List (Tick u)) (r r' : Running u) : Type 0 where
    pub handled : List (MessageAndDstId u)
    pub arrived : List (MessageAndDstId u)
    pub serves : Serves code ts r handled r'
    pub all : handled ++ queue_of r' ≡ queue_of r ++ arrived
    pub each :
        (id : ℕ)
        → messages_for id handled ++ messages_for id (queue_of r')
          ≡ messages_for id (queue_of r) ++ messages_for id arrived

  abbrev Joined : List (Tick u) → Running u → Running u → Type 0
  Joined ts r r' =
      (hs ks : List (MessageAndDstId u)) × Serves code ts r hs r'
      × (hs ++ queue_of r' ≡ queue_of r ++ ks)

  join :
      (t : Tick u) (ts : List (Tick u)) (r r' r'' : Running u)
      → Advances code t r r'
      → Joined ts r' r''
      → Joined (t ∷ ts) r r''
  join t ts r r' r'' a (hs, ks, s, q) = (
    a.handled ++ hs,
    a.arrived ++ ks,
    next a.step s,
    order-++ (queue_of r) (queue_of r') (queue_of r'') a.handled hs a.arrived ks a.order q,
  )

module _ {u : Env} (code : UserCode u) (sends : OnlySends code) where
  after :
      (t : Tick u) (ts : List (Tick u)) (p p'' p' : Phase) (r r'' r' : Running u)
      → OthersSend (t ∷ ts)
      → p ≢ stopped
      → p' ≢ stopped
      → process_step code t p r ≡ some (p'', r'')
      → process code ts p'' r'' ≡ some (p', r')
      → (p'' ≢ stopped → Joined code ts r'' r')
      → Joined code (t ∷ ts) r r'
  after t ts p stopped p' r r'' r' x go go' q e rest =
      let ends = process_stopped code ts r'' in absurd (go' (ground arith))
  after t ts p polling p' r r'' r' x go go' q e rest =
      join code t ts r r'' r'
        (process_step-Advances code sends t p polling r r'' (x.0 r.world) go (ground arith) q)
        (rest (ground arith))
  after t ts p (blocking d) p' r r'' r' x go go' q e rest =
      join code t ts r r'' r'
        (process_step-Advances code sends t p (blocking d) r r'' (x.0 r.world) go (ground arith) q)
        (rest (ground arith))

  joined :
      (ts : List (Tick u)) (p p' : Phase) (r r' : Running u)
      → OthersSend ts
      → p ≢ stopped
      → p' ≢ stopped
      → process code ts p r ≡ some (p', r')
      → Joined code ts r r'
  unfolding process
  joined [] p p' r r' x go go' e =
      subst (Joined code [] r) {x = r} {y = r'} (ground arith)
        ([], [], done, sym (append-nil (queue_of r)))
  joined (t ∷ ts) p p' r r' x go go' e = elim (Option-cases (process_step code t p r)) [
    | inl n ↦ absurd (ground arith)
    | inr ((p'', r''), q) ↦
        let e' : process code ts p'' r'' ≡ some (p', r') = ground arith in
        after t ts p p'' p' r r'' r' x go go' q e' (λ go''. joined ts p'' p' r'' r' x.1 go'' go' e')
  ]

  -- A dispatcher serves its queue in order. However many steps its loop makes without stopping, and
  -- whatever other threads send meanwhile, each message of the queue and of those that arrive is
  -- processed once, in the order of the queue, by the one actor that it is for, as a step of the
  -- abstract system: what was processed followed by what still waits is what waited at first
  -- followed by what has arrived, for the whole queue and for each actor. The users' code and the
  -- other threads only send.
  pub process-InOrder :
      (ts : List (Tick u)) (p p' : Phase) (r r' : Running u)
      → OthersSend ts
      → p ≢ stopped
      → p' ≢ stopped
      → process code ts p r ≡ some (p', r')
      → InOrder code ts r r'
  process-InOrder ts p p' r r' x go go' e =
      let (hs, ks, s, q) = joined ts p p' r r' x go go' e in
      record {
        handled = hs;
        arrived = ks;
        serves = s;
        all = q;
        each = λ id.
            sym (messages_for-++ id hs (queue_of r'))
            ∙ ap (messages_for id) q
            ∙ messages_for-++ id (queue_of r) ks;
      }
