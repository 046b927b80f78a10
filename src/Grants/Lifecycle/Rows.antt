-- ===== src/Grants/Lifecycle/Rows.antt =====
-- The store's statements on `grants`, as moves of the lifecycle.
use vault_db_access.Prelude.{
  ℕ, ◌≡◌, refl, ap, ◌∙◌, true, false, inl, inr, ◌⊎◌, Option, none, some, List, [], ◌∷◌, ◌++◌, Text,
  arith, ◌==◌, ==_iff, eq_Text, Bool-cases, Option-cases, if◌then◌else◌,
}
use vault_db_access.Models.{issuing, is_terminal}
use vault_db_access.Rows.{
  Grant, Field, set_status, assign, assign_all, find_row, update_rows, insert_row,
}
use vault_db_access.Effects.{World, Env, done, killed, clock, time, modify, gets, raise, ◌>>=◌}
use vault_db_access.Store.{with_grants, NewGrant, new_row, insert_grant, update_grant, audit}
use vault_db_access.Grants.Lifecycle.Relation.{
  Evolves, SameRequest, SameRequest-refl, SameRequest-trans, Becomes-refl, Lives, Lives-same,
  SameGrants,
}

assign-SameRequest : (f : Field) (g : Grant) → SameRequest g (assign f g)
assign-SameRequest (set_status s) g = ground arith
assign-SameRequest _ g = ground arith

pub assign_all-SameRequest : (fs : List Field) (g : Grant) → SameRequest g (assign_all fs g)
assign_all-SameRequest [] g = SameRequest-refl g
assign_all-SameRequest (f ∷ fs) g =
    SameRequest-trans (assign-SameRequest f g) (assign_all-SameRequest fs (assign f g))

-- The row that an update leaves.
abbrev pub stamped : List Field → ℕ → Grant → Grant
stamped fs now g = record (assign_all fs g) { updated_at = now }

pub find_row-id : (i : Text) (gs : List Grant) (g : Grant) → find_row i gs ≡ some g → g.id ≡ i
unfolding find_row
find_row-id i [] g h = cc
find_row-id i (x ∷ gs) g h = elim (Bool-cases (i == x.id)) [
  | inl same ↦ ground (arith, (==_iff i x.id).0 same)
  | inr other ↦ find_row-id i gs g (rw other at h)
]

pub find_row-update_self :
    (i : Text) (fs : List Field) (now : ℕ) (gs : List Grant) (g : Grant)
    → find_row i gs ≡ some g
    → find_row i (update_rows i fs now gs) ≡ some (stamped fs now g)
unfolding find_row update_rows
find_row-update_self i fs now [] g h = cc
find_row-update_self i fs now (x ∷ gs) g h =
    let kept = (assign_all-SameRequest fs x).id in
    elim (Bool-cases (i == x.id)) [
      | inl same ↦ rw (same, kept, same) (ground (arith, same))
      | inr other ↦ rw (other, other) (find_row-update_self i fs now gs g (rw other at h))
    ]

ne-via : (i j k : Text) → (i == j) ≡ false → (i == k) ≡ true → (j == k) ≡ false
ne-via i j k ne same = ground (arith, ==_iff i j, ==_iff i k, ==_iff j k)

pub find_row-update_ne :
    (i j : Text) (fs : List Field) (now : ℕ) (gs : List Grant)
    → (i == j) ≡ false
    → find_row j (update_rows i fs now gs) ≡ find_row j gs
unfolding find_row update_rows
find_row-update_ne i j fs now [] ne = refl
find_row-update_ne i j fs now (x ∷ gs) ne =
    let kept = (assign_all-SameRequest fs x).id in
    elim (Bool-cases (i == x.id)) [
      | inl same ↦
          let other = ne-via i j x.id ne same in
          rw (same, kept, other) (find_row-update_ne i j fs now gs ne)
      | inr other ↦
          rw other (ap (λ o. if j == x.id then some x else o) (find_row-update_ne i j fs now gs ne))
    ]

-- `update_grant` is cut off before it writes, or it writes.
pub update_grant-cases :
    (i : Text) (fs : List Field) (env : Env) (w : World)
    → let ticked = record w { history = clock ∷ w.history } in
      (update_grant i fs env w ≡ (killed, ticked))
      ⊎ (update_grant i fs env w
          ≡ (done tt, with_grants (update_rows i fs (env.time w.history) w.db.grants) ticked))
unfolding update_grant time modify ◌>>=◌
update_grant-cases i fs env w = elim (Bool-cases (env.is_killed w.history)) [
  | inl dead ↦ inl (rw dead)
  | inr alive ↦ inr (rw alive)
]

-- An update is a move of the lifecycle if it is one for the row that it names.
pub update_grant-Lives :
    (i : Text) (fs : List Field) (env : Env) (w : World)
    → ((g : Grant)
        → find_row i w.db.grants ≡ some g
        → Evolves g.status (assign_all fs g).status × (is_terminal g.status ≡ false))
    → Lives w (update_grant i fs env w).1
update_grant-Lives i fs env w may = elim (update_grant-cases i fs env w) [
  | inl cut ↦ rw cut (Lives-same refl)
  | inr wrote ↦ rw wrote (record {
    row = λ j g found. elim (Bool-cases (i == j)) [
      | inl same ↦
          let e = (==_iff i j).0 same in
          let found_i : find_row i w.db.grants ≡ some g = rw e found in
          let (evolves, open_row) = may g found_i in
          let now = env.time w.history in
          (
            stamped fs now g,
            rw (← e) (find_row-update_self i fs now w.db.grants g found_i),
            record {
              evolves = evolves;
              same = ground (arith, assign_all-SameRequest fs g);
              frozen = λ t. cc;
            },
          )
      | inr other ↦ (
        g,
        find_row-update_ne i j fs (env.time w.history) w.db.grants other ∙ found,
        Becomes-refl g,
      )
    ];
  })
]

-- The audit log is another table.
pub audit-SameGrants :
    (request_id grant_id : Option Text) (actor action result detail : Text) (env : Env) (w : World)
    → SameGrants w (audit request_id grant_id actor action result detail env w).1
unfolding audit time modify ◌>>=◌
audit-SameGrants request_id grant_id actor action result detail env w =
    elim (Bool-cases (env.is_killed w.history)) [
      | inl dead ↦ rw dead refl
      | inr alive ↦ rw alive refl
    ]

find_row-append :
    (i : Text) (gs hs : List Grant) (g : Grant)
    → find_row i gs ≡ some g
    → find_row i (gs ++ hs) ≡ some g
unfolding find_row
find_row-append i [] hs g h = cc
find_row-append i (x ∷ gs) hs g h = elim (Bool-cases (i == x.id)) [
  | inl same ↦ rw same (rw same at h)
  | inr other ↦ rw other (find_row-append i gs hs g (rw other at h))
]

pub find_row-append_new :
    (g : Grant) (gs : List Grant)
    → find_row g.id gs ≡ none
    → find_row g.id (gs ++ (g ∷ [])) ≡ some g
unfolding find_row
find_row-append_new g [] h = rw ((==_iff g.id g.id).1 refl)
find_row-append_new g (x ∷ gs) h = elim (Bool-cases (g.id == x.id)) [
  | inl same ↦ cc (rw same at h)
  | inr other ↦ rw other (find_row-append_new g gs (rw other at h))
]

-- An insertion is cut off, or violates the primary key, or adds a row that is being issued.
pub insert_grant-cases :
    (n : NewGrant) (env : Env) (w : World)
    → let (r, w') = insert_grant n env w in
      Lives w w'
      × ((r ≡ done tt) → (g : Grant) × (find_row n.id w'.db.grants ≡ some g) × (g.status ≡ issuing))
unfolding insert_grant insert_row time gets modify raise ◌>>=◌
insert_grant-cases n env w =
    let row : Grant = new_row n (env.time w.history) in
    elim (Bool-cases (env.is_killed w.history)) [
      | inl dead ↦ rw dead (Lives-same refl, λ h. cc)
      | inr alive ↦ elim (Option-cases (find_row n.id w.db.grants)) [
        | inl new ↦
            rw (alive, new)
              (
                record {
                  row = λ i g found.
                      (g, find_row-append i w.db.grants (row ∷ []) g found, Becomes-refl g);
                },
                λ _. (row, find_row-append_new row w.db.grants new, refl),
              )
        | inr (old, there) ↦ rw (alive, there) (Lives-same refl, λ h. cc)
      ]
    ]

find_row-update_none :
    (i : Text) (fs : List Field) (now : ℕ) (gs : List Grant)
    → find_row i gs ≡ none
    → find_row i (update_rows i fs now gs) ≡ none
unfolding find_row update_rows
find_row-update_none i fs now [] h = refl
find_row-update_none i fs now (x ∷ gs) h = elim (Bool-cases (i == x.id)) [
  | inl same ↦ cc (rw same at h)
  | inr other ↦ rw (other, other) (find_row-update_none i fs now gs (rw other at h))
]

-- After an update that has written, the row is the stamped one.
pub update_grant-found :
    (i : Text) (fs : List Field) (env : Env) (w : World)
    → let (r, w') = update_grant i fs env w in
      r ≡ done tt
      → (h : Grant) → find_row i w'.db.grants ≡ some h
      → (g : Grant) × (find_row i w.db.grants ≡ some g) × (h ≡ stamped fs (env.time w.history) g)
update_grant-found i fs env w = elim (update_grant-cases i fs env w) [
  | inl cut ↦ rw cut (λ e. cc)
  | inr wrote ↦ rw wrote (λ _ h found. elim (Option-cases (find_row i w.db.grants)) [
    | inl missing ↦ cc (found, find_row-update_none i fs (env.time w.history) w.db.grants missing)
    | inr (g, there) ↦
        let now = env.time w.history in
        (g, there, cc (found, find_row-update_self i fs now w.db.grants g there))
  ])
]
