-- ===== src/Hub/Actor.antt =====
-- hub.go, Run: the hub's goroutine takes one request after another from its channels. A history is
-- the list of the requests in the order in which they are taken, whatever that order is.
use efir.Prelude.{
  ℕ, String, ◌≡◌, refl, ap, ◌∙◌, List, [], ◌∷◌, Bool, ◌&&◌, ◌||◌, ◌==◌, not, All, nat_eq, string_eq,
  false,
}
use efir.Prelude.Keyed.{lookup}
use efir.Hub.{
  Hub, Envelope, new_hub, add_conn, remove_conn, disconnect_all, conns_of, rooms_of, user_of,
  room_of,
}
use efir.Hub.Tidy.{IsTidy, add_conn-IsTidy}
use efir.Hub.Entries.{
  HasLiveConns, add_conn-HasLiveConns, remove_conn-HasLiveConns, disconnect_all-HasLiveConns,
}
use efir.Hub.Pruning.{remove_conn-IsTidy, disconnect_all-IsTidy}
use efir.Hub.Invariant.{in_room, IsConsistent, in_room-add_conn, add_conn-IsConsistent}
use efir.Hub.Departure.{
  Named, in_room-remove_conn, in_room-disconnect_all, remove_conn-IsConsistent,
  disconnect_all-IsConsistent,
}

pub data Request : Type 0 where
  register : ℕ → String → String → Request
  unregister : ℕ → String → Request
  disconnect : ℕ → Request
  broadcast : String → Envelope → Request
  room_count : String → Request

-- What one turn of the loop does to the maps. A broadcast and a count read them only.
unfoldable pub step : Hub → Request → Hub
step h (register conn user_id room_id) = add_conn h conn user_id room_id
step h (unregister conn room_id) = remove_conn h conn room_id
step h (disconnect conn) = disconnect_all h conn
step h (broadcast room_id envelope) = h
step h (room_count room_id) = h

unfoldable pub run : Hub → List Request → Hub
unfolding step
run h [] = h
run h (q ∷ qs) = run (step h q) qs

-- The abstract view: which connection is in which room.
abbrev pub Members : Type 0
Members = ℕ → String → Bool

unfoldable pub enter_or_leave : Members → Request → Members
enter_or_leave m (register conn _ room_id) d s = (conn == d) && (room_id == s) || m d s
enter_or_leave m (unregister conn room_id) d s = m d s && not ((conn == d) && (room_id == s))
enter_or_leave m (disconnect conn) d s = m d s && not (conn == d)
enter_or_leave m (broadcast _ _) d s = m d s
enter_or_leave m (room_count _) d s = m d s

unfoldable pub members : Members → List Request → Members
unfolding enter_or_leave
members m [] = m
members m (q ∷ qs) = members (enter_or_leave m q) qs

-- Each connection registers for its own user.
abbrev pub IsOwned : (ℕ → String) → Request → Type 0
IsOwned owner (register conn user_id _) = user_id ≡ owner conn
IsOwned owner _ = Unit {0}

-- What holds of the hub between two turns of its loop.
pub record IsValid (owner : ℕ → String) (h : Hub) : Type 0 where
  pub consistent : IsConsistent owner h
  pub tidy : IsTidy h.rooms
  pub live_conns : HasLiveConns h.conn_rooms

pub new_hub-IsValid : (owner : ℕ → String) → IsValid owner new_hub
unfolding new_hub conns_of rooms_of user_of in_room room_of lookup
new_hub-IsValid owner = record {
  consistent = record { agree = λ c r u. refl; known = λ c. refl; distinct = λ r u. tt };
  tidy = record { unique = λ r. tt; live_room = λ r e. cc; live_user = λ r u e. cc };
  live_conns = λ c e. cc;
}

module _ (owner : ℕ → String) (named : Named owner) where
  pub step-IsValid :
      (h : Hub) (q : Request) → IsOwned owner q → IsValid owner h → IsValid owner (step h q)
  unfolding step
  step-IsValid h (register c u r) own v = record {
    consistent = rw own (add_conn-IsConsistent owner h c r v.consistent);
    tidy = add_conn-IsTidy h c u r v.tidy;
    live_conns = add_conn-HasLiveConns h c u r v.live_conns;
  }
  step-IsValid h (unregister c r) own v = record {
    consistent = remove_conn-IsConsistent owner named h c v.consistent r;
    tidy = remove_conn-IsTidy h c r v.tidy;
    live_conns = remove_conn-HasLiveConns h c r v.live_conns;
  }
  step-IsValid h (disconnect c) own v = record {
    consistent = disconnect_all-IsConsistent owner named h c v.consistent;
    tidy = disconnect_all-IsTidy h c v.tidy;
    live_conns = disconnect_all-HasLiveConns h c v.live_conns;
  }
  step-IsValid h (broadcast r e) own v = v
  step-IsValid h (room_count r) own v = v

  run-IsValid :
      (qs : List Request) (h : Hub)
      → All (IsOwned owner) qs
      → IsValid owner h
      → IsValid owner (run h qs)
  unfolding run
  run-IsValid [] h own v = v
  run-IsValid (q ∷ qs) h own v = run-IsValid qs (step h q) own.1 (step-IsValid h q own.0 v)

  -- Whatever requests the hub has taken, if each connection registered for its own user, which is
  -- not the empty text, then the three maps agree on who is in which room, each connection stands
  -- at most once in each list, and none of the maps keeps an empty entry, for a room, for a user of
  -- a room or for a connection.
  pub run-new_hub-IsValid :
      (qs : List Request) → All (IsOwned owner) qs → IsValid owner (run new_hub qs)
  run-new_hub-IsValid qs own = run-IsValid qs new_hub own (new_hub-IsValid owner)

  pub in_room-step :
      (h : Hub) (q : Request) (m : Members)
      → IsOwned owner q
      → IsConsistent owner h
      → ((d : ℕ) (s : String) → in_room h d s ≡ m d s)
      → (d : ℕ) (s : String) → in_room (step h q) d s ≡ enter_or_leave m q d s
  unfolding step enter_or_leave
  in_room-step h (register c u r) m own v e d s =
      rw own (in_room-add_conn owner h c r v d s ∙ ap (λ b. (c == d) && (r == s) || b) (e d s))
  in_room-step h (unregister c r) m own v e d s =
      in_room-remove_conn owner named h c v r d s
      ∙ ap (λ b. b && not ((c == d) && (r == s))) (e d s)
  in_room-step h (disconnect c) m own v e d s =
      in_room-disconnect_all owner named h c v d s ∙ ap (λ b. b && not (c == d)) (e d s)
  in_room-step h (broadcast r env) m own v e d s = e d s
  in_room-step h (room_count r) m own v e d s = e d s

  in_room-run_from :
      (qs : List Request) (h : Hub) (m : Members)
      → All (IsOwned owner) qs
      → IsValid owner h
      → ((d : ℕ) (s : String) → in_room h d s ≡ m d s)
      → (d : ℕ) (s : String) → in_room (run h qs) d s ≡ members m qs d s
  unfolding run members
  in_room-run_from [] h m own v e = e
  in_room-run_from (q ∷ qs) h m own v e =
      in_room-run_from qs (step h q) (enter_or_leave m q) own.1 (step-IsValid h q own.0 v)
        (in_room-step h q m own.0 v.consistent e)

  -- The hub refines the abstract view: after any such requests a connection is in a room exactly if
  -- the requests, read as joins and leaves of a set of pairs, put it there.
  pub in_room-run :
      (qs : List Request)
      → All (IsOwned owner) qs
      → (d : ℕ) (s : String) → in_room (run new_hub qs) d s ≡ members (λ _ _. false) qs d s
  unfolding in_room rooms_of new_hub lookup
  in_room-run qs own =
      in_room-run_from qs new_hub (λ _ _. false) own (new_hub-IsValid owner) (λ d s. refl)
