-- ===== src/Ws/Ending.antt =====
-- services/websocket: what becomes of a connection that has ended.
use efir.Prelude.{
  ℕ, String, ◌≡◌, refl, sym, ap, ◌∙◌, List, [], ◌∷◌, ◌++◌, Bool, true, false, ◌||◌, Option, none,
  some, ◌==◌, ltb, length, contains, contains-append, nat_eq, string_eq, arith, Bool-cases, if_both,
  inl, inr, ◌⊎◌, eq-cases,
}
use mathlib.Core.Path.{subst}
use efir.Hub.{Hub}
use efir.Hub.Invariant.{in_room}
use efir.Hub.Actor.{Request, register, unregister, disconnect, broadcast, room_count}
use efir.Ws.System.{
  Phase, closing, done, Session, System, put_session, offer, offer_maybe, then_session, or_stay,
}
use efir.Ws.Session.{Codec}
use efir.Ws.Asking.{OfMaybe}

abbrev pub is_ended : Phase → Bool
is_ended closing = true
is_ended done = true
is_ended _ = false

pub own_conn :
    (a b : ℕ) (u r u' r' : String) → ◌≡◌ {A = Request} (register a u r) (register b u' r') → a ≡ b
own_conn a b u r u' r' k = ground (arith, k)

-- A registration of the connection waits in the channel.
abbrev pub waits : ℕ → List (ℕ × String × String) → Bool
waits c [] = false
waits c ((d, u, r) ∷ l) = (d == c) || waits c l

pub waits-append :
    (c d : ℕ) (u r : String) (l : List (ℕ × String × String))
    → waits c (l ++ (d, u, r) ∷ []) ≡ (waits c l || (d == c))
waits-append c d u r [] = ground arith
waits-append c d u r ((e, v, q) ∷ l) = ground (arith, waits-append c d u r l)

module _ (c : ℕ) where
  -- The hub is to be told of the connection's end; or it has been told all there is, and the
  -- connection is in no room.
  abbrev pub Settled : List ℕ → List (ℕ × String × String) → Hub → Type 0
  Settled disconnects registers h =
      (contains disconnects c ≡ true)
      ⊎ ((waits c registers ≡ false) × ((r : String) → in_room h c r ≡ false))

  abbrev pub Gone : System → Type 0
  Gone s = is_ended (s.sessions c).reader ≡ true → Settled s.disconnects s.registers s.hub

  abbrev pub GoneMaybe : Option System → Type 0
  GoneMaybe none = Unit {0}
  GoneMaybe (some s) = Gone s

  abbrev pub SameSessions : System → Option System → Type 0
  SameSessions s none = Unit {0}
  SameSessions s (some s') = s'.sessions ≡ s.sessions

  -- A step of a pump that leaves the reader no further than it was.
  pub put-Gone :
      (d : ℕ) (t : Session) (s : System)
      → (d ≡ c → is_ended t.reader ≡ true → is_ended (s.sessions c).reader ≡ true)
      → Gone s
      → Gone (put_session d t s)
  put-Gone d t s back g = elim (eq-cases d c) [
    | inl (same, e) ↦ rw e (λ h. g (back same h))
    | inr e ↦ rw e g
  ]

  -- A request that is no registration of the connection itself.
  pub offer-Gone :
      (q : Request) (s : System)
      → ((u r : String) → q ≡ register c u r → is_ended (s.sessions c).reader ≡ false)
      → Gone s
      → GoneMaybe (offer q s)
  unfolding offer
  offer-Gone (register d u r) s own g = elim (Bool-cases (ltb (length s.registers) s.buffer_size)) [
    | inr f ↦ rw f tt
    | inl f ↦ rw f (λ h. elim (eq-cases d c) [
      | inl (same, e) ↦ cc (h, own u r (ap (λ x. register x u r) same))
      | inr e ↦ elim (g h) [
        | inl k ↦ inl k
        | inr (k, out) ↦ inr (rw (waits-append, k, e) refl, out)
      ]
    ])
  ]
  offer-Gone (unregister d r) s own g =
      elim (Bool-cases (ltb (length s.unregisters) s.buffer_size)) [
        | inr f ↦ rw f tt
        | inl f ↦ rw f g
      ]
  offer-Gone (disconnect d) s own g = elim (Bool-cases (ltb (length s.disconnects) s.buffer_size)) [
    | inr f ↦ rw f tt
    | inl f ↦ rw f (λ h. elim (g h) [ inl k ↦ inl (rw (contains-append, k) refl) | inr k ↦ inr k ])
  ]
  offer-Gone (broadcast r e) s own g = elim (Bool-cases (ltb (length s.broadcasts) s.buffer_size)) [
    | inr f ↦ rw f tt
    | inl f ↦ rw f g
  ]
  offer-Gone (room_count r) s own g = elim (Bool-cases (ltb (length s.counts) s.buffer_size)) [
    | inr f ↦ rw f tt
    | inl f ↦ rw f g
  ]

  pub offer-Same : (q : Request) (s : System) → SameSessions s (offer q s)
  unfolding offer
  offer-Same (register d u r) s =
      if_both (SameSessions s) (ltb (length s.registers) s.buffer_size)
        (some (record s { registers = s.registers ++ (d, u, r) ∷ [] })) none refl tt
  offer-Same (unregister d r) s =
      if_both (SameSessions s) (ltb (length s.unregisters) s.buffer_size)
        (some (record s { unregisters = s.unregisters ++ (d, r) ∷ [] })) none refl tt
  offer-Same (disconnect d) s =
      if_both (SameSessions s) (ltb (length s.disconnects) s.buffer_size)
        (some (record s { disconnects = s.disconnects ++ d ∷ [] })) none refl tt
  offer-Same (broadcast r e) s =
      if_both (SameSessions s) (ltb (length s.broadcasts) s.buffer_size)
        (some (record s { broadcasts = s.broadcasts ++ (r, e) ∷ [] })) none refl tt
  offer-Same (room_count r) s =
      if_both (SameSessions s) (ltb (length s.counts) s.buffer_size)
        (some (record s { counts = s.counts ++ r ∷ [] })) none refl tt

  pub then_session-Gone :
      (m : Option System) (d : ℕ) (t : Session) (s : System)
      → SameSessions s m
      → (d ≡ c → is_ended t.reader ≡ true → is_ended (s.sessions c).reader ≡ true)
      → GoneMaybe m
      → Gone s
      → Gone (then_session m d t s)
  then_session-Gone none d t s same back h g = g
  then_session-Gone (some s') d t s same back h g = put-Gone d t s' (λ e k. rw same (back e k)) h

  -- Disconnect, after which the connection may count as ended.
  pub leave-Gone :
      (d : ℕ) (t : Session) (s : System)
      → Gone s
      → Gone (then_session (offer (disconnect d) s) d t s)
  unfolding offer
  leave-Gone d t s g = elim (Bool-cases (ltb (length s.disconnects) s.buffer_size)) [
    | inr f ↦ rw f g
    | inl f ↦ rw f (elim (eq-cases d c) [
      | inl (same, e) ↦ λ h. inl (rw contains-append (ground (arith, e)))
      | inr e ↦
          rw e (λ h. elim (g h) [ inl k ↦ inl (rw (contains-append, k) refl) | inr k ↦ inr k ])
    ])
  ]

  pub or_stay-Gone :
      (codec : Codec) (owner : ℕ → String) (m : Option System) (s : System)
      → GoneMaybe m
      → Gone s
      → Gone (or_stay codec owner m s)
  or_stay-Gone codec owner none s h g = g
  or_stay-Gone codec owner (some s') s h g = h

  abbrev pub IsFrom : ℕ → Request → Type 0
  IsFrom d (register e _ _) = e ≡ d
  IsFrom d _ = Unit {0}

  pub offer_maybe-Gone :
      (d : ℕ) (q : Option Request) (s : System)
      → OfMaybe (IsFrom d) q
      → is_ended (s.sessions d).reader ≡ false
      → Gone s
      → GoneMaybe (offer_maybe q s) × SameSessions s (offer_maybe q s)
  offer_maybe-Gone d none s from alive g = (g, refl)
  offer_maybe-Gone d (some (register e v r)) s from alive g = (
    offer-Gone (register e v r) s
        (λ u q same.
          subst (λ x. is_ended (s.sessions x).reader ≡ false) (sym from ∙ own_conn e c v r u q same)
            alive)
        g,
    offer-Same (register e v r) s,
  )
  offer_maybe-Gone d (some (unregister e r)) s from alive g = (
    offer-Gone (unregister e r) s (λ u q same. absurd (ground (arith, same))) g,
    offer-Same (unregister e r) s,
  )
  offer_maybe-Gone d (some (disconnect e)) s from alive g = (
    offer-Gone (disconnect e) s (λ u q same. absurd (ground (arith, same))) g,
    offer-Same (disconnect e) s,
  )
  offer_maybe-Gone d (some (broadcast r e)) s from alive g = (
    offer-Gone (broadcast r e) s (λ u q same. absurd (ground (arith, same))) g,
    offer-Same (broadcast r e) s,
  )
  offer_maybe-Gone d (some (room_count r)) s from alive g = (
    offer-Gone (room_count r) s (λ u q same. absurd (ground (arith, same))) g,
    offer-Same (room_count r) s,
  )
