-- ===== src/Ws/Queues.antt =====
-- services/websocket: the hub's maps and channels in any interleaving of the goroutines.
use efir.Prelude.{
  ℕ, String, ◌≡◌, refl, List, [], ◌∷◌, ◌++◌, Bool, true, false, ◌&&◌, Option, none, some, ◌==◌,
  if◌then◌else◌, ltb, length, All, All-append, nat_eq, string_eq, Bool-cases, List-cases, inl, inr,
  if_both,
}
use mathlib.Core.Path.{subst}
use efir.Hub.{Envelope}
use efir.Hub.Departure.{Named}
use efir.Hub.Actor.{
  Request, register, unregister, disconnect, broadcast, room_count, IsOwned, IsValid, step-IsValid,
  new_hub-IsValid,
}
use efir.Ws.Session.{Codec, on_message}
use efir.Ws.Asking.{OfMaybe, on_message-Asks}
use efir.Ws.System.{
  Session, System, new_system, put_session, offer, offer_maybe, then_session, or_stay, is_idle,
  is_serving, is_leaving, is_closing, Action, accept, read, fail_read, leave_read, close_read,
  write, leave_write, fail_ping, leave_ping, close_ping, stop_ping, deliver, count_room,
  take_register, take_unregister, take_disconnect, take_broadcast, take_count, accept_conn,
  read_conn, end_read, leave_by_read, close_by_read, write_conn, leave_by_write, end_ping,
  leave_by_ping, close_by_ping, stop_by_ping, hub_take, act, run_actions,
}

abbrev pub IsOwn : (ℕ → String) → ℕ × String × String → Type 0
IsOwn owner (c, u, r) = u ≡ owner c

-- The hub is valid, and each registration that waits is of the connection's own user.
abbrev pub IsSound : (ℕ → String) → System → Type 0
IsSound owner s = IsValid owner s.hub × All (IsOwn owner) s.registers

module _ (codec : Codec) (owner : ℕ → String) where
  abbrev SoundMaybe : Option System → Type 0
  SoundMaybe none = Unit {0}
  SoundMaybe (some s) = IsSound owner s

  offer-Sound :
      (q : Request) (s : System) → IsOwned owner q → IsSound owner s → SoundMaybe (offer q s)
  unfolding offer
  offer-Sound (register c u r) s h v = elim (Bool-cases (ltb (length s.registers) s.buffer_size)) [
    | inl e ↦ rw e (v.0, All-append (IsOwn owner) s.registers (c, u, r) v.1 h)
    | inr e ↦ rw e tt
  ]
  offer-Sound (unregister c r) s h v =
      if_both SoundMaybe (ltb (length s.unregisters) s.buffer_size)
        (some (record s { unregisters = s.unregisters ++ (c, r) ∷ [] })) none v tt
  offer-Sound (disconnect c) s h v =
      if_both SoundMaybe (ltb (length s.disconnects) s.buffer_size)
        (some (record s { disconnects = s.disconnects ++ c ∷ [] })) none v tt
  offer-Sound (broadcast r e) s h v =
      if_both SoundMaybe (ltb (length s.broadcasts) s.buffer_size)
        (some (record s { broadcasts = s.broadcasts ++ (r, e) ∷ [] })) none v tt
  offer-Sound (room_count r) s h v =
      if_both SoundMaybe (ltb (length s.counts) s.buffer_size)
        (some (record s { counts = s.counts ++ r ∷ [] })) none v tt

  offer_maybe-Sound :
      (q : Option Request) (s : System)
      → OfMaybe (IsOwned owner) q
      → IsSound owner s
      → SoundMaybe (offer_maybe q s)
  offer_maybe-Sound none s h v = v
  offer_maybe-Sound (some q) s h v = offer-Sound q s h v

  then_session-IsSound :
      (m : Option System) (c : ℕ) (t : Session) (s : System)
      → SoundMaybe m
      → IsSound owner s
      → IsSound owner (then_session m c t s)
  then_session-IsSound none c t s h v = v
  then_session-IsSound (some s') c t s h v = h

  or_stay-IsSound :
      (m : Option System) (s : System)
      → SoundMaybe m
      → IsSound owner s
      → IsSound owner (or_stay codec owner m s)
  or_stay-IsSound none s h v = v
  or_stay-IsSound (some s') s h v = h

module _ (codec : Codec) (owner : ℕ → String) (named : Named owner) where
  hub_take-IsSound :
      (a : Action) (s : System) → IsSound owner s → IsSound owner (hub_take codec owner a s)
  unfolding hub_take
  hub_take-IsSound take_register s v = take s.registers refl
    where
      take :
          (l : List (ℕ × String × String))
          → s.registers ≡ l
          → IsSound owner (hub_take codec owner take_register s)
      take [] e = rw e (v.0, tt)
      take ((c, u, r) ∷ l) e = rw e (
          let w : IsOwn owner (c, u, r) × All (IsOwn owner) l = subst (All (IsOwn owner)) e v.1 in
          (step-IsValid owner named s.hub (register c u r) w.0 v.0, w.1))
  hub_take-IsSound take_unregister s v = elim (List-cases s.unregisters) [
    | inl e ↦ rw e v
    | inr ((c, r), l, e) ↦ rw e (step-IsValid owner named s.hub (unregister c r) tt v.0, v.1)
  ]
  hub_take-IsSound take_disconnect s v = elim (List-cases s.disconnects) [
    | inl e ↦ rw e v
    | inr (c, l, e) ↦ rw e (step-IsValid owner named s.hub (disconnect c) tt v.0, v.1)
  ]
  hub_take-IsSound take_broadcast s v = elim (List-cases s.broadcasts) [
    | inl e ↦ rw e v
    | inr ((r, env), l, e) ↦ rw e (step-IsValid owner named s.hub (broadcast r env) tt v.0, v.1)
  ]
  hub_take-IsSound take_count s v = elim (List-cases s.counts) [
    | inl e ↦ rw e v
    | inr (r, l, e) ↦ rw e (step-IsValid owner named s.hub (room_count r) tt v.0, v.1)
  ]
  hub_take-IsSound _ s v = v

  accept_conn-IsSound :
      (c : ℕ) (r : String) (s : System)
      → IsSound owner s
      → IsSound owner (accept_conn codec owner c r s)
  unfolding accept_conn
  accept_conn-IsSound c r s v = elim (Bool-cases (is_idle (s.sessions c).reader)) [
    | inr e ↦ rw e v
    | inl e ↦ rw e (elim (Bool-cases (r == "")) [
      | inl f ↦ rw f v
      | inr f ↦ rw f (
          then_session-IsSound codec owner (offer (register c (owner c) r) s) c _ s
            (offer-Sound codec owner (register c (owner c) r) s refl v) v)
    ])
  ]

  read_conn-IsSound :
      (c : ℕ) (m : Option Envelope) (s : System)
      → IsSound owner s
      → IsSound owner (read_conn codec owner c m s)
  unfolding read_conn
  read_conn-IsSound c m s v = elim (Bool-cases (is_serving (s.sessions c).reader)) [
    | inr e ↦ rw e v
    | inl e ↦ rw e (
        let ask = (on_message codec c (owner c) m).ask in
        then_session-IsSound codec owner (offer_maybe ask s) c _ s
          (offer_maybe-Sound codec owner ask s
            (on_message-Asks (IsOwned owner) codec c (owner c) (λ r. refl) (λ r. tt) m) v)
          v)
  ]

  -- Disconnect, then the phase that follows.
  leave-IsSound :
      (b : Bool) (c : ℕ) (t : Session) (s : System)
      → IsSound owner s
      → IsSound owner (if b then then_session (offer (disconnect c) s) c t s else s)
  leave-IsSound false c t s v = v
  leave-IsSound true c t s v =
      then_session-IsSound codec owner (offer (disconnect c) s) c t s
        (offer-Sound codec owner (disconnect c) s tt v) v

  put-IsSound :
      (b : Bool) (c : ℕ) (t : Session) (s : System)
      → IsSound owner s
      → IsSound owner (if b then put_session c t s else s)
  put-IsSound false c t s v = v
  put-IsSound true c t s v = v

  write_conn-IsSound :
      (c : ℕ) (written : Bool) (s : System)
      → IsSound owner s
      → IsSound owner (write_conn codec owner c written s)
  unfolding write_conn
  write_conn-IsSound c written s v = elim (Bool-cases (is_serving (s.sessions c).writer)) [
    | inr e ↦ rw e v
    | inl e ↦ rw e (elim (List-cases (s.sessions c).outbound.queue) [
      | inl f ↦ rw f (put-IsSound (s.sessions c).outbound.closed c _ s v)
      | inr (x, l, f) ↦ rw f v
    ])
  ]

  pub act-IsSound :
      (a : Action) (s : System) → IsSound owner s → IsSound owner (act codec owner a s)
  unfolding act end_read leave_by_read close_by_read leave_by_write end_ping leave_by_ping
      close_by_ping stop_by_ping
  act-IsSound (accept c r) s v = accept_conn-IsSound c r s v
  act-IsSound (read c m) s v = read_conn-IsSound c m s v
  act-IsSound (fail_read c) s v = put-IsSound (is_serving (s.sessions c).reader) c _ s v
  act-IsSound (leave_read c) s v = leave-IsSound (is_leaving (s.sessions c).reader) c _ s v
  act-IsSound (close_read c) s v = put-IsSound (is_closing (s.sessions c).reader) c _ s v
  act-IsSound (write c written) s v = write_conn-IsSound c written s v
  act-IsSound (leave_write c) s v = leave-IsSound (is_leaving (s.sessions c).writer) c _ s v
  act-IsSound (fail_ping c) s v = put-IsSound (is_serving (s.sessions c).pinger) c _ s v
  act-IsSound (leave_ping c) s v = leave-IsSound (is_leaving (s.sessions c).pinger) c _ s v
  act-IsSound (close_ping c) s v = put-IsSound (is_closing (s.sessions c).pinger) c _ s v
  act-IsSound (stop_ping c) s v =
      put-IsSound (is_serving (s.sessions c).pinger && (s.sessions c).cancelled) c _ s v
  act-IsSound (deliver r e) s v =
      or_stay-IsSound codec owner (offer (broadcast r e) s) s
        (offer-Sound codec owner (broadcast r e) s tt v) v
  act-IsSound (count_room r) s v =
      or_stay-IsSound codec owner (offer (room_count r) s) s
        (offer-Sound codec owner (room_count r) s tt v) v
  act-IsSound take_register s v = hub_take-IsSound take_register s v
  act-IsSound take_unregister s v = hub_take-IsSound take_unregister s v
  act-IsSound take_disconnect s v = hub_take-IsSound take_disconnect s v
  act-IsSound take_broadcast s v = hub_take-IsSound take_broadcast s v
  act-IsSound take_count s v = hub_take-IsSound take_count s v

  run_actions-IsSound :
      (acts : List Action) (s : System)
      → IsSound owner s
      → IsSound owner (run_actions codec owner acts s)
  unfolding run_actions
  run_actions-IsSound [] s v = v
  run_actions-IsSound (a ∷ acts) s v =
      run_actions-IsSound acts (act codec owner a s) (act-IsSound a s v)

  -- In whatever order the readers, writers and pingers of the connections and the hub take their
  -- steps, from the start of the service, the hub's three maps agree on who is in which room, list
  -- each connection at most once and keep no empty entry, and a registration that waits in the
  -- channel is of the user that the connection was admitted as; no user is the empty text.
  pub run_actions-new_system-IsSound :
      (buffer_size write_buffer : ℕ) (acts : List Action)
      → IsSound owner (run_actions codec owner acts (new_system buffer_size write_buffer))
  unfolding new_system
  run_actions-new_system-IsSound buffer_size write_buffer acts =
      run_actions-IsSound acts (new_system buffer_size write_buffer) (new_hub-IsValid owner, tt)
