-- ===== src/Ws/Departure.antt =====
-- services/websocket: the end of a connection reaches the hub, in any interleaving that keeps the order
-- of its own requests.
use efir.Prelude.{
  ℕ, String, ◌≡◌, refl, ap, ◌∙◌, List, ◌∷◌, Bool, true, false, ◌&&◌, not, Option, none, some, ◌==◌,
  if◌then◌else◌, nat_eq, string_eq, arith, Bool-cases, List-cases, All, inl, inr, eq-cases,
}
use mathlib.Core.Path.{subst}
use efir.Hub.{Hub, Envelope}
use efir.Hub.Departure.{Named}
use efir.Hub.Invariant.{in_room}
use efir.Hub.Actor.{
  Request, register, unregister, disconnect, broadcast, room_count, step, enter_or_leave, IsOwned,
  IsValid, in_room-step,
}
use efir.Ws.System.{
  Phase, is_idle, is_serving, is_closing, Session, System, put_session, offer, offer_maybe,
  then_session, tell, Action, take_register, take_unregister, take_disconnect, take_broadcast,
  take_count, accept_conn, read_conn, hub_take,
}
use efir.Ws.Session.{Codec, on_message}
use efir.Ws.Asking.{on_message-Asks}
use efir.Ws.Queues.{IsOwn, IsSound}
use efir.Ws.Ending.{
  own_conn, is_ended, waits, Settled, Gone, IsFrom, put-Gone, offer-Gone, then_session-Gone,
  leave-Gone, offer_maybe-Gone, offer-Same,
}

-- The hub takes no end of the connection while a registration of it waits.
abbrev pub IsInOrder : ℕ → Action → System → Type 0
IsInOrder c take_disconnect s = (l : List ℕ) → s.disconnects ≡ c ∷ l → waits c s.registers ≡ false
IsInOrder c _ s = Unit {0}

is_idle_alive : (p : Phase) → is_idle p ≡ true → is_ended p ≡ false
is_idle_alive p h = ground (arith, h)

is_serving_alive : (p : Phase) → is_serving p ≡ true → is_ended p ≡ false
is_serving_alive p h = ground (arith, h)

pub is_closing_ended : (p : Phase) → is_closing p ≡ true → is_ended p ≡ true
is_closing_ended p h = ground (arith, h)

tell_reader : (m : Option String) (t : Session) → (tell m t).reader ≡ t.reader
tell_reader none t = refl
tell_reader (some bytes) t = refl

module _ (c : ℕ) where
  -- What is true of the reader of `d` is true of that of `c`, if they are one.
  pub moved :
      (d : ℕ) (b : Bool) (s : System)
      → is_ended (s.sessions d).reader ≡ b
      → d ≡ c
      → is_ended (s.sessions c).reader ≡ b
  moved d b s h same = subst (λ x. is_ended (s.sessions x).reader ≡ b) same h

  pub put_if-Gone :
      (b : Bool) (d : ℕ) (t : Session) (s : System)
      → (b ≡ true → d ≡ c → is_ended t.reader ≡ true → is_ended (s.sessions c).reader ≡ true)
      → Gone c s
      → Gone c (if b then put_session d t s else s)
  put_if-Gone false d t s back g = g
  put_if-Gone true d t s back g = put-Gone c d t s (back refl) g

  pub leave_if-Gone :
      (b : Bool) (d : ℕ) (t : Session) (s : System)
      → Gone c s
      → Gone c (if b then then_session (offer (disconnect d) s) d t s else s)
  leave_if-Gone false d t s g = g
  leave_if-Gone true d t s g = leave-Gone c d t s g

module _ (c : ℕ) (codec : Codec) (owner : ℕ → String) (named : Named owner) where
  after :
      (q : Request) (h : Hub) (r : String)
      → IsOwned owner q
      → IsValid owner h
      → in_room (step h q) c r ≡ enter_or_leave (in_room h) q c r
  after q h r own v = in_room-step owner named h q (in_room h) own v.consistent (λ d t. refl) c r

  registered :
      (d : ℕ) (u r : String) (l : List (ℕ × String × String)) (dis : List ℕ) (h : Hub)
      → u ≡ owner d
      → IsValid owner h
      → Settled c dis ((d, u, r) ∷ l) h
      → Settled c dis l (step h (register d u r))
  unfolding enter_or_leave
  registered d u r l dis h own v (inl k) = inl k
  registered d u r l dis h own v (inr (k, out)) = elim (Bool-cases (d == c)) [
    | inl e ↦ cc (rw e at k)
    | inr e ↦ inr (rw e at k, λ t. after (register d u r) h t own v ∙ rw (e, out t) refl)
  ]

  taken :
      (d : ℕ) (l : List ℕ) (regs : List (ℕ × String × String)) (h : Hub)
      → (d ≡ c → waits c regs ≡ false)
      → IsValid owner h
      → Settled c (d ∷ l) regs h
      → Settled c l regs (step h (disconnect d))
  unfolding enter_or_leave
  taken d l regs h order v k = elim (eq-cases d c) [
    | inl (same, e) ↦ inr (order same, λ t. after (disconnect d) h t tt v ∙ rw e (ground arith))
    | inr e ↦ elim k [
      | inl k ↦ inl (rw e at k)
      | inr (k, out) ↦ inr (k, λ t. after (disconnect d) h t tt v ∙ rw (e, out t) refl)
    ]
  ]

  pub hub_take-Gone :
      (a : Action) (s : System)
      → IsInOrder c a s
      → IsSound owner s
      → Gone c s
      → Gone c (hub_take codec owner a s)
  unfolding hub_take enter_or_leave
  hub_take-Gone take_register s order v g = elim (List-cases s.registers) [
    | inl e ↦ rw e (λ h. rw e at (g h))
    | inr ((d, u, r), l, e) ↦
        let w : IsOwn owner (d, u, r) × All (IsOwn owner) l = subst (All (IsOwn owner)) e v.1 in
        rw e (λ h.
          registered d u r l s.disconnects s.hub w.0 v.0
            (subst (λ q. Settled c s.disconnects q s.hub) e (g h)))
  ]
  hub_take-Gone take_unregister s order v g = elim (List-cases s.unregisters) [
    | inl e ↦ rw e g
    | inr ((d, r), l, e) ↦ rw e (λ h. elim (g h) [
      | inl k ↦ inl k
      | inr (k, out) ↦ inr (
        k,
        λ t.
            after (unregister d r) s.hub t tt v.0
            ∙ ap (λ b. b && not ((d == c) && (r == t))) (out t),
      )
    ])
  ]
  hub_take-Gone take_disconnect s order v g = elim (List-cases s.disconnects) [
    | inl e ↦ rw e (λ h. rw e at (g h))
    | inr (d, l, e) ↦ rw e (λ h.
        taken d l s.registers s.hub (λ same. order l (e ∙ ap (λ x. x ∷ l) same)) v.0
          (subst (λ q. Settled c q s.registers s.hub) e (g h)))
  ]
  hub_take-Gone take_broadcast s order v g = elim (List-cases s.broadcasts) [
    | inl e ↦ rw e g
    | inr ((r, env), l, e) ↦ rw e (λ h. elim (g h) [
      | inl k ↦ inl k
      | inr (k, out) ↦ inr (k, λ t. after (broadcast r env) s.hub t tt v.0 ∙ out t)
    ])
  ]
  hub_take-Gone take_count s order v g = elim (List-cases s.counts) [
    | inl e ↦ rw e g
    | inr (r, l, e) ↦ rw e (λ h. elim (g h) [
      | inl k ↦ inl k
      | inr (k, out) ↦ inr (k, λ t. after (room_count r) s.hub t tt v.0 ∙ out t)
    ])
  ]
  hub_take-Gone _ s order v g = g

  pub accept_conn-Gone :
      (d : ℕ) (r : String) (s : System) → Gone c s → Gone c (accept_conn codec owner d r s)
  unfolding accept_conn
  accept_conn-Gone d r s g = elim (Bool-cases (is_idle (s.sessions d).reader)) [
    | inr e ↦ rw e g
    | inl e ↦ rw e (elim (Bool-cases (r == "")) [
      | inl f ↦ rw f (put-Gone c d _ s (λ same h. cc) g)
      | inr f ↦ rw f (
          then_session-Gone c (offer (register d (owner d) r) s) d _ s
            (offer-Same c (register d (owner d) r) s) (λ same h. cc)
            (offer-Gone c (register d (owner d) r) s
              (λ u q k. moved c d false s (is_idle_alive _ e) (own_conn d c (owner d) r u q k)) g)
            g)
    ])
  ]

  pub read_conn-Gone :
      (d : ℕ) (m : Option Envelope) (s : System) → Gone c s → Gone c (read_conn codec owner d m s)
  unfolding read_conn
  read_conn-Gone d m s g = elim (Bool-cases (is_serving (s.sessions d).reader)) [
    | inr e ↦ rw e g
    | inl e ↦ rw e (
        let ask = (on_message codec d (owner d) m).ask in
        let alive = is_serving_alive (s.sessions d).reader e in
        let (h, same) =
          offer_maybe-Gone c d ask s
            (on_message-Asks (IsFrom c d) codec d (owner d) (λ r. refl) (λ r. tt) m) alive g in
        then_session-Gone c (offer_maybe ask s) d _ s same
          (λ one k. absurd (still (on_message codec d (owner d) m).tell (s.sessions d) alive k)) h
          g)
  ]
    where
      still :
          (m : Option String) (t : Session)
          → is_ended t.reader ≡ false
          → is_ended (tell m t).reader ≡ true
          → ⊥
      still m t alive k = cc (tell_reader m t)
