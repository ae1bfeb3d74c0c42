-- ===== src/Call/Store/Sound.antt =====
-- The map of the sessions and the objects that it refers to.
use ylp_software.Base.{
  ◌≡◌, refl, sym, ◌∙◌, ℕ, ◌<◌, Bool, true, false, not, ◌&&◌, String, Option, none, some, List, [],
  ◌∷◌, arith, lookup, lookup-insert, lookup-erase, is_some, nat_same, string_same, ◌==◌,
  if◌then◌else◌, Bool-cases, inl, inr,
}
use ylp_software.Call.Store.{
  Session, Store, no_sessions, session_at, open_session, adjust, set_answered, mark_answered,
  set_finalized, retire, unless_finalized, live, live_session,
}

abbrev pub map_option : (Session → Session) → Option Session → Option Session
map_option f none = none
map_option f (some session) = some (f session)

pub lookup-adjust :
    (f : Session → Session) (ref r : ℕ) (objects : List (ℕ × Session))
    → lookup r (adjust f ref objects)
      ≡ (if ref == r then map_option f (lookup r objects) else lookup r objects)
lookup-adjust f ref r [] = ground arith
lookup-adjust f ref r ((k, session) ∷ rest) = ground (arith, lookup-adjust f ref r rest)

-- What an object is to the map: of the peer, and not finalized.
abbrev pub is_of : String → Option Session → Bool
is_of peer none = false
is_of peer (some session) = session.peer_id == peer

abbrev pub is_live_of : String → Option Session → Bool
is_live_of peer none = false
is_live_of peer (some session) = session.peer_id == peer && not session.finalized

is_of_unique :
    (a b : String) (o : Option Session) → is_of a o ≡ true → is_live_of b o ≡ true → (a == b) ≡ true
is_of_unique a b none p q = ground arith
is_of_unique a b (some session) p q = ground (
  arith,
  string_same.same_iff session.peer_id a,
  string_same.same_iff session.peer_id b,
  string_same.same_iff a b,
)

pub record IsSound (s : Store) : Type 0 where
  pub live :
      (peer : String) (ref : ℕ)
      → lookup peer s.call_sessions ≡ some ref
      → is_live_of peer (session_at s ref) ≡ true
  pub fresh : (ref : ℕ) → is_some (session_at s ref) ≡ true → ref < s.next_ref

pub no_sessions-IsSound : IsSound no_sessions
no_sessions-IsSound = record { live = λ peer ref h. ground arith; fresh = λ ref h. ground arith }

pub open_session-IsSound :
    (s : Store) (session : Session)
    → IsSound s
    → session.finalized ≡ false
    → IsSound (open_session session s)
unfolding open_session
open_session-IsSound s session h f = record {
  live = λ peer ref p. ground (
    arith,
    sym (lookup-insert session.peer_id peer s.next_ref s.call_sessions) ∙ p,
    h.live peer ref,
    h.fresh ref,
  );
  fresh = λ ref p. elim (Bool-cases (s.next_ref == ref)) [
    | inl e ↦ ground arith
    | inr e ↦ ground (arith, h.fresh ref)
  ];
}

pub mark_answered-IsSound :
    (s : Store) (ref now : ℕ) → IsSound s → IsSound (mark_answered ref now s)
unfolding mark_answered
mark_answered-IsSound s ref now h = record {
  live =
      λ peer r p. ground (arith, h.live peer r p, lookup-adjust (set_answered now) ref r s.objects);
  fresh = λ r p. ground (arith, h.fresh r, lookup-adjust (set_answered now) ref r s.objects);
}

pub retire-IsSound :
    (s : Store) (peer : String) (ref : ℕ)
    → IsSound s
    → is_of peer (session_at s ref) ≡ true
    → IsSound (retire peer ref s)
unfolding retire
retire-IsSound s peer ref h o = record {
  live = λ other r p. ground (
    arith,
    sym (lookup-erase peer other s.call_sessions) ∙ p,
    h.live other r,
    is_of_unique peer other (session_at s r),
    lookup-adjust set_finalized ref r s.objects,
  );
  fresh = λ r p. ground (arith, h.fresh r, lookup-adjust set_finalized ref r s.objects);
}

-- What belongs to a peer goes on belonging to it.
abbrev pub Extends : Store → Store → Type 0
Extends s t =
    (peer : String) (ref : ℕ)
    → is_of peer (session_at s ref) ≡ true
    → is_of peer (session_at t ref) ≡ true

pub open_session-Extends :
    (s : Store) (session : Session) → IsSound s → Extends s (open_session session s)
unfolding open_session
open_session-Extends s session h peer ref p = ground (arith, h.fresh ref, p)

pub mark_answered-Extends : (s : Store) (ref now : ℕ) → Extends s (mark_answered ref now s)
unfolding mark_answered
mark_answered-Extends s ref now peer r p =
    ground (arith, lookup-adjust (set_answered now) ref r s.objects)

pub retire-Extends : (s : Store) (peer : String) (ref : ℕ) → Extends s (retire peer ref s)
unfolding retire
retire-Extends s peer ref other r p = ground (arith, lookup-adjust set_finalized ref r s.objects)

unless_finalized-keeps :
    (peer : String) (ref found : ℕ) (o : Option Session)
    → unless_finalized ref o ≡ some found
    → is_live_of peer o ≡ true
    → (ref ≡ found) × (is_of peer o ≡ true)
unless_finalized-keeps peer ref found none p q = ground arith
unless_finalized-keeps peer ref found (some session) p q = ground arith

-- In a sound store the session of the map is the live one.
live-of :
    (s : Store) (peer : String) (o : Option ℕ) (ref : ℕ)
    → IsSound s
    → lookup peer s.call_sessions ≡ o
    → live s o ≡ some ref
    → is_of peer (session_at s ref) ≡ true
live-of s peer none ref h e p = ground arith
live-of s peer (some r) ref h e p =
    ground (arith, unless_finalized-keeps peer r ref (session_at s r) p (h.live peer r e))

pub live_session-of :
    (s : Store) (peer : String) (ref : ℕ)
    → IsSound s
    → live_session s peer ≡ some ref
    → is_of peer (session_at s ref) ≡ true
live_session-of s peer ref h p = live-of s peer (lookup peer s.call_sessions) ref h refl p
