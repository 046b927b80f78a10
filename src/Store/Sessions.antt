-- ===== src/Store/Sessions.antt =====
-- The table of sessions, as a partial function of the key.
use vault_db_access.Prelude.{
  ℕ, ◌≡◌, refl, ap, ◌∙◌, Bool, true, false, not, inl, inr, Option, none, some, List, [], ◌∷◌, ◌++◌,
  Text, arith, ◌==◌, ==_iff, eq_Text, Bool-cases, Option-cases, if◌then◌else◌, keep,
}
use vault_db_access.Rows.{Session, find_session, touch_sessions, delete_sessions}

-- At most one session under a key.
abbrev pub SessionMap : Type 0
SessionMap = Text → Option Session

abbrev pub view : List Session → SessionMap
view ss k = find_session k ss

abbrev pub write : Text → Option Session → SessionMap → SessionMap
write i o t k = if k == i then o else t k

abbrev pub seen_at : Bool → ℕ → Session → Session
seen_at true now s = record s { last_seen = now; last_check = now }
seen_at false now s = record s { last_seen = now }

abbrev pub on_some : (Session → Session) → Option Session → Option Session
on_some f none = none
on_some f (some s) = some (f s)

abbrev pub only : (Session → Bool) → Option Session → Option Session
only p none = none
only p (some s) = if p s then some s else none

-- The primary key: no two rows have the same.
abbrev pub IsKeyed : List Session → Type 0
IsKeyed [] = Unit
IsKeyed (s ∷ ss) = (find_session s.sid ss ≡ none) × IsKeyed ss

pub find_session-sid :
    (k : Text) (ss : List Session) (s : Session) → find_session k ss ≡ some s → s.sid ≡ k
unfolding find_session
find_session-sid k [] s h = cc
find_session-sid k (x ∷ ss) s h = elim (Bool-cases (k == x.sid)) [
  | inl same ↦ ground (arith, (==_iff k x.sid).0 same)
  | inr other ↦ find_session-sid k ss s (rw other at h)
]

pub find_session-append :
    (k : Text) (ss : List Session) (s : Session)
    → find_session s.sid ss ≡ none
    → find_session k (ss ++ (s ∷ [])) ≡ write s.sid (some s) (view ss) k
unfolding find_session
find_session-append k [] s h = refl
find_session-append k (x ∷ ss) s h = elim (Bool-cases (s.sid == x.sid)) [
  | inl same ↦ cc (rw same at h)
  | inr other ↦ ground (
    arith,
    find_session-append k ss s (rw other at h),
    ==_iff k s.sid,
    ==_iff k x.sid,
    ==_iff s.sid x.sid,
  )
]

pub IsKeyed-append :
    (ss : List Session) (s : Session)
    → find_session s.sid ss ≡ none
    → IsKeyed ss
    → IsKeyed (ss ++ (s ∷ []))
unfolding find_session
IsKeyed-append [] s h keyed = (refl, tt)
IsKeyed-append (x ∷ ss) s h keyed = elim (Bool-cases (s.sid == x.sid)) [
  | inl same ↦ cc (rw same at h)
  | inr other ↦
      let new = rw other at h in
      (
        find_session-append x.sid ss s new
            ∙ ground (arith, keyed.0, other, ==_iff x.sid s.sid, ==_iff s.sid x.sid),
        IsKeyed-append ss s new keyed.1,
      )
]

pub find_session-touch :
    (k i : Text) (checked : Bool) (now : ℕ) (ss : List Session)
    → find_session k (touch_sessions i checked now ss)
      ≡ write i (on_some (seen_at checked now) (view ss i)) (view ss) k
unfolding find_session touch_sessions
find_session-touch k i checked now [] = ground arith
find_session-touch k i true now (x ∷ ss) =
    ground (arith, find_session-touch k i true now ss, ==_iff k i, ==_iff k x.sid, ==_iff i x.sid)
find_session-touch k i false now (x ∷ ss) =
    ground (arith, find_session-touch k i false now ss, ==_iff k i, ==_iff k x.sid, ==_iff i x.sid)

pub find_session-keep :
    (k : Text) (p : Session → Bool) (ss : List Session)
    → IsKeyed ss
    → find_session k (keep p ss) ≡ only p (view ss k)
unfolding find_session
find_session-keep k p [] keyed = refl
find_session-keep k p (x ∷ ss) keyed = elim (Bool-cases (k == x.sid)) [
  | inl same ↦
      let e = (==_iff k x.sid).0 same in
      let none_left = find_session-keep k p ss keyed.1 in
      ground (arith, same, none_left, rw (← e) at keyed.0)
  | inr other ↦ ground (arith, other, find_session-keep k p ss keyed.1)
]

pub IsKeyed-keep : (p : Session → Bool) (ss : List Session) → IsKeyed ss → IsKeyed (keep p ss)
unfolding find_session
IsKeyed-keep p [] keyed = tt
IsKeyed-keep p (x ∷ ss) keyed = elim (Bool-cases (p x)) [
  | inl kept ↦
      rw kept
        (find_session-keep x.sid p ss keyed.1 ∙ ap (only p) keyed.0, IsKeyed-keep p ss keyed.1)
  | inr dropped ↦ rw dropped (IsKeyed-keep p ss keyed.1)
]

pub IsKeyed-touch :
    (i : Text) (checked : Bool) (now : ℕ) (ss : List Session)
    → IsKeyed ss
    → IsKeyed (touch_sessions i checked now ss)
unfolding touch_sessions
IsKeyed-touch i checked now [] keyed = tt
IsKeyed-touch i checked now (x ∷ ss) keyed =
    (touched-sid i checked now x ss keyed.0, IsKeyed-touch i checked now ss keyed.1)
  where
    touched-sid :
        (i : Text) (checked : Bool) (now : ℕ) (x : Session) (ss : List Session)
        → find_session x.sid ss ≡ none
        → find_session
            (if i == x.sid
              then (if checked
                  then record x { last_seen = now; last_check = now }
                  else record x { last_seen = now })
              else x).sid
            (touch_sessions i checked now ss)
          ≡ none
    touched-sid i checked now x ss h =
        ground (arith, h, find_session-touch x.sid i checked now ss, ==_iff x.sid i)

pub IsKeyed-delete : (i : Text) (ss : List Session) → IsKeyed ss → IsKeyed (delete_sessions i ss)
unfolding delete_sessions
IsKeyed-delete i ss keyed = IsKeyed-keep _ ss keyed

pub find_session-delete :
    (k i : Text) (ss : List Session)
    → IsKeyed ss
    → find_session k (delete_sessions i ss) ≡ write i none (view ss) k
unfolding delete_sessions
find_session-delete k i ss keyed =
    find_session-keep k (λ s. not (i == s.sid)) ss keyed ∙ elim (Option-cases (view ss k)) [
      | inl missing ↦ ground (arith, missing)
      | inr (s, there) ↦
          ground (arith, there, find_session-sid k ss s there, ==_iff k i, ==_iff i s.sid)
    ]
