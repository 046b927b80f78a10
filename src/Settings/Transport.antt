-- ===== src/Settings/Transport.antt =====
-- The transport that the settings allow, for the portal and for its setup.
use mathlib.Core.Path.{subst}
use vault_db_access.Prelude.{
  text_eq, ◌||◌, ℕ, ◌≡◌, refl, ◌⊎◌, inl, inr, Bool, true, false, not, ◌&&◌, some, [], ◌∷◌, ◌==◌,
  eq_Text, if◌then◌else◌, contains, lookup, Text, codes, ok, ok->>=, Bool-cases, arith,
}
use vault_db_access.Preflight.{Environ}
use vault_db_access.Urls.{Url, urlsplit, hostname}
use vault_db_access.Settings.{
  default_choice, setup_choice, Settings, is_one, default_sslmode, weak_sslmodes, strong_sslmodes,
  sslmodes, system_exit, is_loopback, check_sslmode, check_public, check_transport, setup_sslmode,
  setup_choice, default_choice, pg_ssl_kwargs,
}

-- A mode of libpq, and an encrypting one unless insecure transport is allowed.
pub record IsAllowed (mode : Text) (insecure : Bool) : Type 0 where
  pub known : contains sslmodes mode ≡ true
  pub strong : (insecure ≡ true) ⊎ (contains strong_sslmodes mode ≡ true)

known-cases :
    (mode : Text)
    → contains sslmodes mode ≡ true
    → contains weak_sslmodes mode ≡ false
    → contains strong_sslmodes mode ≡ true
known-cases mode known not_weak = ground (arith, known, not_weak)

check_sslmode-IsAllowed :
    (mode : Text) (insecure : Bool) → check_sslmode mode insecure ≡ ok tt → IsAllowed mode insecure
unfolding check_sslmode
check_sslmode-IsAllowed mode insecure h = elim (Bool-cases (contains sslmodes mode)) [
  | inr unknown ↦ cc (rw unknown at h)
  | inl known ↦ elim (Bool-cases (contains weak_sslmodes mode)) [
    | inr not_weak ↦ record { known = known; strong = inr (known-cases mode known not_weak) }
    | inl weak ↦ record {
      known = known;
      strong = inl (elim (Bool-cases insecure) [
        | inl allowed ↦ allowed
        | inr secure ↦ cc (rw (known, weak, secure) at h)
      ]);
    }
  ]
]

chosen_is :
    {insecure : Bool} (a b : Text) → ok a ≡ ok b → IsAllowed a insecure → IsAllowed b insecure
chosen_is {insecure = insecure} a b h = subst (λ m. IsAllowed m insecure) (inner h)
  where
    inner : {x y : Text} → ok x ≡ ok y → x ≡ y
    inner e = cc e

chosen_set :
    (c : ℕ) (s chosen : Text) (rooted insecure : Bool)
    → setup_choice (c ∷ s) rooted insecure ≡ ok chosen
    → (check_sslmode (c ∷ s) insecure ≡ ok tt) × IsAllowed chosen insecure
unfolding setup_choice check_sslmode
chosen_set c s chosen rooted insecure h = elim (Bool-cases (contains sslmodes (c ∷ s))) [
  | inr unknown ↦ cc (rw unknown at h)
  | inl known ↦ elim (Bool-cases (contains weak_sslmodes (c ∷ s) && not insecure)) [
    | inl refused ↦ cc (rw (known, refused) at h)
    | inr taken ↦
        let accepted : check_sslmode (c ∷ s) insecure ≡ ok tt = rw (known, taken) refl in
        (
          accepted,
          chosen_is (c ∷ s) chosen (rw (known, taken) at h)
              (check_sslmode-IsAllowed (c ∷ s) insecure accepted),
        )
  ]
]

chosen_both :
    (mode : Text) (rooted insecure : Bool) (chosen : Text)
    → setup_choice mode rooted insecure ≡ ok chosen
    → (check_sslmode (default_choice mode rooted insecure) insecure ≡ ok tt)
      × IsAllowed chosen insecure
unfolding setup_choice check_sslmode text_eq
chosen_both [] true true chosen h =
    (refl, chosen_is (codes "verify-full") chosen h (record { known = refl; strong = inr refl }))
chosen_both [] true false chosen h =
    (refl, chosen_is (codes "verify-full") chosen h (record { known = refl; strong = inr refl }))
chosen_both [] false true chosen h =
    (refl, chosen_is (codes "disable") chosen h (record { known = refl; strong = inl refl }))
chosen_both [] false false chosen h = cc
chosen_both (c ∷ s) rooted insecure chosen h = chosen_set c s chosen rooted insecure h

-- When setup.py accepts the environment and takes a mode for PostgreSQL, then the portal accepts its own
-- mode in the same environment, and the mode that setup.py takes is one of libpq's, and an encrypting
-- one unless insecure transport is allowed.
pub setup_sslmode-check_sslmode :
    (env : Environ) (mode : Text)
    → setup_sslmode env ≡ ok mode
    → let insecure = is_one env (codes "VDBA_ALLOW_INSECURE") in
      (check_sslmode (default_sslmode env) insecure ≡ ok tt) × IsAllowed mode insecure
unfolding setup_sslmode default_sslmode
setup_sslmode-check_sslmode env mode h = chosen_both _ _ _ mode h

-- The public origin is absent, or is reached by https or on this host.
pub record IsPrivate (c : ℕ) (s : Text) : Type 0 where
  pub parts : Url
  pub split : urlsplit (c ∷ s) ≡ ok parts
  pub encrypted : ((parts.scheme == codes "https") || is_loopback (hostname parts)) ≡ true

abbrev pub IsPrivateOrigin : Text → Type 0
IsPrivateOrigin [] = Unit
IsPrivateOrigin (c ∷ s) = IsPrivate c s

check_public-IsPrivate :
    (origin : Text) → check_public origin false ≡ ok tt → IsPrivateOrigin origin
unfolding check_public
check_public-IsPrivate [] h = tt
check_public-IsPrivate (c ∷ s) h =
    let (parts, split, tested) = ok->>= (urlsplit (c ∷ s)) _ h in
    record {
      parts = parts;
      split = split;
      encrypted = private_of (parts.scheme == codes "https") (is_loopback (hostname parts)) tested;
    }
  where
    private_of :
        (https loopback : Bool)
        → (if not https && not loopback && not false then system_exit else ok tt) ≡ ok tt
        → (https || loopback) ≡ true
    private_of true loopback h = refl
    private_of false true h = refl
    private_of false false h = cc

strong_if_secure :
    {mode : Text} {insecure : Bool}
    → insecure ≡ false
    → IsAllowed mode insecure
    → contains strong_sslmodes mode ≡ true
strong_if_secure secure allowed = elim allowed.strong [ inl insecure ↦ cc | inr strong ↦ strong ]

-- When `check_transport` accepts settings that do not allow insecure transport, then the connections to
-- PostgreSQL are asked for with an encrypting mode, and the public origin is absent, https, or on
-- this host.
pub check_transport-IsPrivate :
    (st : Settings)
    → check_transport st ≡ ok tt
    → st.allow_insecure ≡ false
    → (mode : Text) × (lookup (codes "sslmode") (pg_ssl_kwargs st) ≡ some mode)
      × (contains strong_sslmodes mode ≡ true)
      × IsPrivateOrigin st.public_origin
unfolding check_transport pg_ssl_kwargs lookup text_eq
check_transport-IsPrivate st h secure =
    let (u, mode_ok, public_ok) = ok->>= (check_sslmode st.pg_sslmode st.allow_insecure) _ h in
    (
      st.pg_sslmode,
      refl,
      strong_if_secure secure (check_sslmode-IsAllowed st.pg_sslmode st.allow_insecure mode_ok),
      check_public-IsPrivate st.public_origin (rw secure at public_ok),
    )
