-- ===== src/Ws/Left.antt =====
-- services/websocket: a connection whose reader has ended is in no room, once the hub has taken what
-- waits in its Disconnect channel.
use efir.Prelude.{
  ℕ, String, ◌≡◌, refl, sym, List, [], ◌∷◌, Bool, true, false, ◌&&◌, arith, Bool-cases, List-cases,
  inl, inr,
}
use mathlib.Core.Path.{subst}
use efir.Hub.Departure.{Named}
use efir.Hub.Invariant.{in_room}
use efir.Hub.Actor.{disconnect, broadcast, room_count, step, new_hub-IsValid}
use efir.Ws.Session.{Codec}
use efir.Ws.System.{
  System, new_system, offer, is_serving, is_leaving, is_closing, Action, accept, read, fail_read,
  leave_read, close_read, write, leave_write, fail_ping, leave_ping, close_ping, stop_ping, deliver,
  count_room, take_register, take_unregister, take_disconnect, take_broadcast, take_count, end_read,
  leave_by_read, close_by_read, write_conn, leave_by_write, end_ping, leave_by_ping, close_by_ping,
  stop_by_ping, hub_take, act, run_actions,
}
use efir.Ws.Queues.{IsSound, act-IsSound}
use efir.Ws.Ending.{is_ended, waits, Gone, put-Gone, offer-Gone, or_stay-Gone}
use efir.Ws.Departure.{
  IsInOrder, hub_take-Gone, is_closing_ended, moved, put_if-Gone, leave_if-Gone, accept_conn-Gone,
  read_conn-Gone,
}

-- The hub takes each of the ends that wait.
abbrev pub take_all : List ℕ → List Action
take_all [] = []
take_all (d ∷ l) = take_disconnect ∷ take_all l

module _ (c : ℕ) (codec : Codec) (owner : ℕ → String) (named : Named owner) where
  -- A pump that leaves the reader as it stands.
  kept_reader :
      (d : ℕ) (s : System)
      → d ≡ c
      → is_ended (s.sessions d).reader ≡ true
      → is_ended (s.sessions c).reader ≡ true
  kept_reader d s same h = moved c d true s h same

  write_conn-Gone :
      (d : ℕ) (written : Bool) (s : System) → Gone c s → Gone c (write_conn codec owner d written s)
  unfolding write_conn
  write_conn-Gone d written s g = elim (Bool-cases (is_serving (s.sessions d).writer)) [
    | inr e ↦ rw e g
    | inl e ↦ rw e (elim (List-cases (s.sessions d).outbound.queue) [
      | inl f ↦ rw f (put_if-Gone c (s.sessions d).outbound.closed d _ s (λ _. kept_reader d s) g)
      | inr (x, l, f) ↦ rw f (
          put-Gone c d _ s
            (elim (Bool-cases written) [
              | inl w ↦ rw w (kept_reader d s)
              | inr w ↦ rw w (kept_reader d s)
            ])
            g)
    ])
  ]

  act-Gone :
      (a : Action) (s : System)
      → IsInOrder c a s
      → IsSound owner s
      → Gone c s
      → Gone c (act codec owner a s)
  unfolding act end_read leave_by_read close_by_read leave_by_write end_ping leave_by_ping
      close_by_ping stop_by_ping
  act-Gone (accept d r) s order v g = accept_conn-Gone c codec owner named d r s g
  act-Gone (read d m) s order v g = read_conn-Gone c codec owner named d m s g
  act-Gone (fail_read d) s order v g =
      put_if-Gone c (is_serving (s.sessions d).reader) d _ s
        (λ e same h. absurd (ground (arith, h))) g
  act-Gone (leave_read d) s order v g = leave_if-Gone c (is_leaving (s.sessions d).reader) d _ s g
  act-Gone (close_read d) s order v g =
      put_if-Gone c (is_closing (s.sessions d).reader) d _ s
        (λ e same h. kept_reader d s same (is_closing_ended (s.sessions d).reader e)) g
  act-Gone (write d written) s order v g = write_conn-Gone d written s g
  act-Gone (leave_write d) s order v g = leave_if-Gone c (is_leaving (s.sessions d).writer) d _ s g
  act-Gone (fail_ping d) s order v g =
      put_if-Gone c (is_serving (s.sessions d).pinger) d _ s (λ _. kept_reader d s) g
  act-Gone (leave_ping d) s order v g = leave_if-Gone c (is_leaving (s.sessions d).pinger) d _ s g
  act-Gone (close_ping d) s order v g =
      put_if-Gone c (is_closing (s.sessions d).pinger) d _ s (λ _. kept_reader d s) g
  act-Gone (stop_ping d) s order v g =
      put_if-Gone c (is_serving (s.sessions d).pinger && (s.sessions d).cancelled) d _ s
        (λ _. kept_reader d s) g
  act-Gone (deliver r e) s order v g =
      or_stay-Gone c codec owner (offer (broadcast r e) s) s
        (offer-Gone c (broadcast r e) s (λ u q k. absurd (ground (arith, k))) g) g
  act-Gone (count_room r) s order v g =
      or_stay-Gone c codec owner (offer (room_count r) s) s
        (offer-Gone c (room_count r) s (λ u q k. absurd (ground (arith, k))) g) g
  act-Gone take_register s order v g = hub_take-Gone c codec owner named take_register s order v g
  act-Gone take_unregister s order v g =
      hub_take-Gone c codec owner named take_unregister s order v g
  act-Gone take_disconnect s order v g =
      hub_take-Gone c codec owner named take_disconnect s order v g
  act-Gone take_broadcast s order v g = hub_take-Gone c codec owner named take_broadcast s order v g
  act-Gone take_count s order v g = hub_take-Gone c codec owner named take_count s order v g

  -- Each of the actions keeps the order of the connection's own requests.
  abbrev pub Ordered : List Action → System → Type 0
  Ordered [] s = Unit {0}
  Ordered (a ∷ acts) s = IsInOrder c a s × Ordered acts (act codec owner a s)

  run_actions-Gone :
      (acts : List Action) (s : System)
      → Ordered acts s
      → IsSound owner s
      → Gone c s
      → IsSound owner (run_actions codec owner acts s) × Gone c (run_actions codec owner acts s)
  unfolding run_actions
  run_actions-Gone [] s order v g = (v, g)
  run_actions-Gone (a ∷ acts) s order v g =
      run_actions-Gone acts (act codec owner a s) order.1 (act-IsSound codec owner named a s v)
        (act-Gone a s order.0 v g)

  act-take_disconnect :
      (d : ℕ) (l : List ℕ) (s : System)
      → s.disconnects ≡ d ∷ l
      → act codec owner take_disconnect s
        ≡ record s { hub = step s.hub (disconnect d); disconnects = l }
  unfolding act hub_take
  act-take_disconnect d l s e = rw e refl

  run_actions-take_all :
      (l : List ℕ) (s : System)
      → s.disconnects ≡ l
      → waits c s.registers ≡ false
      → is_ended (s.sessions c).reader ≡ true
      → IsSound owner s
      → Gone c s
      → (r : String) → in_room (run_actions codec owner (take_all l) s).hub c r ≡ false
  unfolding run_actions
  run_actions-take_all [] s e quiet ended v g r = elim (g ended) [
    | inl k ↦ cc (rw e at k)
    | inr (k, out) ↦ out r
  ]
  run_actions-take_all (d ∷ l) s e quiet ended v g r =
      let same = act-take_disconnect d l s e in
      subst (λ t. in_room (run_actions codec owner (take_all l) t).hub c r ≡ false) (sym same)
        (run_actions-take_all l (record s { hub = step s.hub (disconnect d); disconnects = l }) refl
          quiet ended
          (subst (IsSound owner) same (act-IsSound codec owner named take_disconnect s v))
          (subst (Gone c) same (act-Gone take_disconnect s (λ _ _. quiet) v g)) r)

  -- In any interleaving of the goroutines from the start of the service in which the hub takes no
  -- Disconnect of a connection while a registration of it waits: when the connection's reader has
  -- ended and no registration of it waits any more, the connection is in no room as soon as the hub
  -- has taken the requests that wait in the Disconnect channel; no user is the empty text.
  pub run_actions-new_system-Gone :
      (buffer_size write_buffer : ℕ) (acts : List Action)
      → Ordered acts (new_system buffer_size write_buffer)
      → let s = run_actions codec owner acts (new_system buffer_size write_buffer) in
        is_ended (s.sessions c).reader ≡ true
        → waits c s.registers ≡ false
        → (r : String)
        → in_room (run_actions codec owner (take_all s.disconnects) s).hub c r ≡ false
  unfolding new_system
  run_actions-new_system-Gone buffer_size write_buffer acts order ended quiet r =
      let s0 = new_system buffer_size write_buffer in
      let (v, g) = run_actions-Gone acts s0 order (new_hub-IsValid owner, tt) (λ h. cc h) in
      run_actions-take_all _ (run_actions codec owner acts s0) refl quiet ended v g r
