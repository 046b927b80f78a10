-- ===== src/Effects/Monad.antt =====
-- The state that the portal keeps, and actions on it that may raise or be killed.
use vault_db_access.Prelude.{
  ℕ, Bool, Option, List, [], ◌∷◌, Text, Exn, if◌then◌else◌, Result, ok, err, is_exception,
}
use vault_db_access.Rows.{Db}
use vault_db_access.Effects.Calls.{Outcome, done, raised, killed, hung, Call, clock, Reply, Env}

-- `vault_client.Service`: the client, by its token, and when it logged in.
pub record Service : Type 0 where
  pub client_token : Option Text
  pub logged_in_at : ℕ

-- The free slots of grants.py's semaphores.
pub record Slots : Type 0 where
  pub issue_free : ℕ
  pub revoke_free : ℕ
  pub auth_free : ℕ
  pub session_free : ℕ

-- The locks and the set of grants.py.
pub record Guards : Type 0 where
  pub postgres_held : Bool
  pub clickhouse_held : Bool
  pub inflight : List Text
  pub slots : Slots

pub record World : Type 0 where
  pub db : Db
  pub guards : Guards
  pub service : Service
  -- the requests made so far, the latest first
  pub history : List Call

abbrev pub M : Type 0 → Type 0
M A = Env → World → Outcome A × World

module _ {A : Type 0} where
  unfoldable pub pure : A → M A
  pure a env w = (done a, w)

  unfoldable pub raise : Exn → M A
  raise e env w = (raised e, w)

  unfoldable pub out_of_rounds : M A
  out_of_rounds env w = (hung, w)

  unfoldable pub die : M A
  die env w = (killed, w)

  unfoldable pub lift : Result A → M A
  lift (ok a) env w = (done a, w)
  lift (err e) env w = (raised e, w)

  unfoldable pub gets : (World → A) → M A
  gets f env w = (done (f w), w)

  unfoldable pub asks : (Env → A) → M A
  asks f env w = (done (f env), w)

unfoldable pub modify : (World → World) → M (Unit {0})
modify f env w = (done tt, f w)

unfoldable pub ask : (c : Call) → M (Reply c)
ask c env w = (env.answer c w.history, record w { history = c ∷ w.history })

-- `time.time()`
unfoldable pub time : M ℕ
time env w = (
  if env.is_killed w.history then killed else done (env.time w.history),
  record w { history = clock ∷ w.history },
)

module _ {A B : Type 0} where
  abbrev pub continue : Outcome A → (Exn → M B) → (A → M B) → M B
  continue (done a) handler after env w = after a env w
  continue (raised e) handler after env w = handler e env w
  continue killed handler after env w = (killed, w)
  continue hung handler after env w = (hung, w)

  -- `try: m; except … : handler; else: after`
  unfoldable pub try_else : M A → (Exn → M B) → (A → M B) → M B
  try_else m handler after env w = let (r, w') = m env w in continue r handler after env w'

  infixl 5 ◌>>=◌ ◌>>◌
  unfoldable pub ◌>>=◌ : M A → (A → M B) → M B
  unfolding try_else raise
  m >>= f = try_else m raise f

  unfoldable pub ◌>>◌ : M A → M B → M B
  unfolding ◌>>=◌
  m >> k = m >>= λ _. k

module _ {A : Type 0} where
  -- `try: m; except … : handler`
  unfoldable pub try_catch : M A → (Exn → M A) → M A
  unfolding try_else pure
  try_catch m handler = try_else m handler pure

  -- what a `finally` does when `m` raises
  unfoldable pub on_error : M A → M (Unit {0}) → M A
  unfolding try_catch ◌>>◌
  on_error m cleanup = try_catch m λ e. cleanup >> raise e

  -- `try: m; finally: cleanup`
  unfoldable pub finally : M A → M (Unit {0}) → M A
  unfolding on_error ◌>>◌ ◌>>=◌
  finally m cleanup = do a ← on_error m cleanup; cleanup; pure a

-- `except Exception: pass`
unfoldable pub quietly : M (Unit {0}) → M (Unit {0})
unfolding try_catch
quietly m = try_catch m λ e. if is_exception e then pure tt else raise e

-- `for a in xs: body(a)`
unfoldable pub for_each {ℓ} : {A : Type ℓ} → List A → (A → M (Unit {0})) → M (Unit {0})
unfolding ◌>>◌
for_each [] body = pure tt
for_each (a ∷ as') body = body a >> for_each as' body
