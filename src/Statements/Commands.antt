-- ===== src/Statements/Commands.antt =====
-- `_commands`: what it accepts, and the substring test on its result.
use vault_db_access.Prelude.{
  ◌≡◌, ◌≢◌, ◌⊎◌, refl, true, false, inl, inr, List, [], ◌∷◌, ◌++◌, arith, ◌==◌, eq_ℕ, eq_Text,
  ==_iff, Bool-cases, if◌then◌else◌, all, contains, fromkeys, contains-fromkeys, all-fromkeys, ◌∙◌,
  Text, codes, text_eq, join, has_part, value_error, Result, ok, err, command_not_allowed, ok->>=,
}
use vault_db_access.Statements.Templates.{
  insert_command, allowed_postgres_commands, check_commands, command_list,
}

check_commands-eq-ok :
    (cs allowed : List Text) (u : Unit {0})
    → check_commands cs allowed ≡ ok u
    → all (contains allowed) cs ≡ true
unfolding check_commands
check_commands-eq-ok [] allowed u h = refl
check_commands-eq-ok (c ∷ cs) allowed u h = ground (arith, check_commands-eq-ok cs allowed u)

check_commands_total :
    (cs allowed : List Text) → all (contains allowed) cs ≡ true → check_commands cs allowed ≡ ok tt
unfolding check_commands
check_commands_total [] allowed h = refl
check_commands_total (c ∷ cs) allowed h = ground (arith, check_commands_total cs allowed)

-- A list of commands is accepted exactly when it is not empty and each one is allowed, and then the
-- text lists each command once, in the order of its first occurrence.
pub command_list_lem :
    (cs allowed : List Text)
    → all (contains allowed) cs ≡ true
    → cs ≢ []
    → command_list cs allowed ≡ ok (join (codes ", ") (fromkeys cs))
unfolding command_list
command_list_lem [] allowed h ne = absurd (ne refl)
command_list_lem (c ∷ cs) allowed h ne = rw (check_commands_total (c ∷ cs) allowed h)

pub command_list-eq-ok :
    (cs allowed : List Text) (cmds : Text)
    → command_list cs allowed ≡ ok cmds
    → (all (contains allowed) cs ≡ true) × (cs ≢ []) × (cmds ≡ join (codes ", ") (fromkeys cs))
unfolding command_list
command_list-eq-ok [] allowed cmds h = cc
command_list-eq-ok (c ∷ cs) allowed cmds h =
    let (u, checked, made) =
      ok->>= (check_commands (c ∷ cs) allowed) (λ _. ok (join (codes ", ") (fromkeys (c ∷ cs))))
        h in
    (check_commands-eq-ok (c ∷ cs) allowed u checked, λ e. cc e, cc made)

-- Some command that is not allowed is named by the error.
abbrev pub Rejected : {A : Type 0} → List Text → Result A → Type 0
Rejected allowed r =
    (cmd : Text) × (r ≡ err (value_error (command_not_allowed cmd)))
    × (contains allowed cmd ≡ false)

check_commands_rejects :
    (cs allowed : List Text)
    → all (contains allowed) cs ≡ false
    → Rejected allowed (check_commands cs allowed)
unfolding check_commands
check_commands_rejects [] allowed h = cc
check_commands_rejects (c ∷ cs) allowed h = elim (Bool-cases (contains allowed c)) [
  | inl fine ↦ rw fine (check_commands_rejects cs allowed (rw fine at h))
  | inr bad ↦ (c, rw bad, bad)
]

pub command_list_rejects :
    (cs allowed : List Text)
    → all (contains allowed) cs ≡ false
    → Rejected allowed (command_list cs allowed)
unfolding command_list
command_list_rejects [] allowed h = cc
command_list_rejects (c ∷ cs) allowed h =
    let (cmd, raised, bad) = check_commands_rejects (c ∷ cs) allowed h in (cmd, rw raised, bad)

allowed_cases :
    (d : Text)
    → contains allowed_postgres_commands d ≡ true
    → (d ≡ codes "SELECT") ⊎ (d ≡ insert_command) ⊎ (d ≡ codes "UPDATE") ⊎ (d ≡ codes "DELETE")
allowed_cases d h = ground (
  arith,
  ==_iff d (codes "SELECT"),
  ==_iff d insert_command,
  ==_iff d (codes "UPDATE"),
  ==_iff d (codes "DELETE"),
)

insert_step :
    (d rest : Text)
    → contains allowed_postgres_commands d ≡ true
    → has_part insert_command (d ++ (codes ", " ++ rest))
      ≡ (if insert_command == d then true else has_part insert_command rest)
unfolding has_part text_eq
insert_step d rest h = elim (allowed_cases d h) [
  | inl e ↦ rw e
  | inr (inl e) ↦ rw e
  | inr (inr (inl e)) ↦ rw e
  | inr (inr (inr e)) ↦ rw e
]

insert_last :
    (d : Text)
    → contains allowed_postgres_commands d ≡ true
    → has_part insert_command d ≡ (insert_command == d)
unfolding has_part text_eq
insert_last d h = elim (allowed_cases d h) [
  | inl e ↦ rw e
  | inr (inl e) ↦ rw e
  | inr (inr (inl e)) ↦ rw e
  | inr (inr (inr e)) ↦ rw e
]

has_part-join :
    (ds : List Text)
    → all (contains allowed_postgres_commands) ds ≡ true
    → has_part insert_command (join (codes ", ") ds) ≡ contains ds insert_command
unfolding join
has_part-join [] h = unfold has_part in refl
has_part-join (d ∷ []) h = ground (arith, insert_last d)
has_part-join (d ∷ e ∷ ds) h =
    ground (arith, insert_step d (join (codes ", ") (e ∷ ds)), has_part-join (e ∷ ds))

-- The source asks whether INSERT is a part of the joined text: for the PostgreSQL commands that says
-- exactly whether INSERT is one of the requested commands.
pub insert-in-command_list :
    (cs : List Text) (cmds : Text)
    → command_list cs allowed_postgres_commands ≡ ok cmds
    → has_part insert_command cmds ≡ contains cs insert_command
insert-in-command_list cs cmds h =
    let (permitted, _, made) = command_list-eq-ok cs allowed_postgres_commands cmds h in
    rw made (
      has_part-join (fromkeys cs) (all-fromkeys (contains allowed_postgres_commands) cs permitted)
      ∙ contains-fromkeys cs insert_command)
