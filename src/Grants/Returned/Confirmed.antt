-- ===== src/Grants/Returned/Confirmed.antt =====
-- The body of the `try` of `_teardown` returns only after a search for accounts that found none.
use vault_db_access.Prelude.{◌≡◌, ap, List, [], ◌∷◌, Text, eq_Text}
use vault_db_access.Models.{DbType}
use vault_db_access.Rows.{Grant}
use vault_db_access.Effects.{M, World, Env, Outcome, done, ◌>>=◌, ◌>>◌}
use vault_db_access.Effects.Frame.{Follows, Follows-for_each}
use vault_db_access.Effects.Returns.{Returns, raise-NeverReturns, bind-Returns}
use vault_db_access.Vault.{revoke_lease}
use vault_db_access.Vault.Frames.{Follows-list_leases, Follows-revoke_lease}
use vault_db_access.Introspect.{find_accounts}
use vault_db_access.Introspect.Frames.{Follows-find_accounts}
use vault_db_access.Grants.Frames.{
  Follows-accessors_of, Follows-lock_out_and_terminate, Follows-drop_account, Follows-finish_gone,
}
use vault_db_access.Grants.Teardown.{finish_gone, confirm_gone, teardown_steps}
use vault_db_access.Grants.Returned.History.{Precedes, Precedes-frame}

-- Between the two states, a search of the database for the grant's accounts came back empty.
pub record Confirmed (db : DbType) (i : Text) (env : Env) (w w' : World) : Type 0 where
  pub at : World
  pub after_start : Precedes w at
  pub before_end : Precedes at w'
  pub empty : (find_accounts db i env at).0 ≡ done []

-- The action, when it returns, has confirmed that.
pub record Confirms {A : Type 0} (db : DbType) (i : Text) (m : M A) : Type 0 where
  pub when : (env : Env) (w w' : World) (a : A) → Returns m env w a w' → Confirmed db i env w w'

module _ {A : Type 0} where
  pub Precedes-end :
      (m : M A) (env : Env) (w w' : World) (a : A)
      → Follows Precedes m
      → Returns m env w a w'
      → Precedes w w'
  Precedes-end m env w w' a follows h =
      rw (← ap (λ (t : Outcome A × World). t.1) h) (follows.at env w)

pub Confirmed-widen :
    {db : DbType} {i : Text} {env : Env} {u v v' u' : World}
    → Precedes u v
    → Confirmed db i env v v'
    → Precedes v' u'
    → Confirmed db i env u u'
Confirmed-widen {u = u} {v = v} {v' = v'} {u' = u'} start c end = record {
  at = c.at;
  after_start = Precedes-frame.chain u v c.at start c.after_start;
  before_end = Precedes-frame.chain c.at v' u' c.before_end end;
  empty = c.empty;
}

module _ {A B : Type 0} where
  pub Confirms-bind :
      (db : DbType) (i : Text) (m : M A) (f : A → M B)
      → Follows Precedes m
      → ((a : A) → Confirms db i (f a))
      → Confirms db i (m >>= f)
  Confirms-bind db i m f hm hf = record {
    when = λ env w w' b h.
        let (a, w1, first, rest) = bind-Returns m f env w w' b h in
        Confirmed-widen (Precedes-end m env w w1 a hm first) ((hf a).when env w1 w' b rest)
          (Precedes-frame.stay w');
  }

  pub Confirms-then :
      (db : DbType) (i : Text) (m : M A) (k : M B)
      → Follows Precedes m
      → Confirms db i k
      → Confirms db i (m >> k)
  unfolding ◌>>◌
  Confirms-then db i m k hm hk = Confirms-bind db i m (λ _. k) hm (λ _. hk)

confirm_gone-Confirms :
    (db : DbType) (i : Text) (accessors : List Text) → Confirms db i (confirm_gone db i accessors)
unfolding confirm_gone
confirm_gone-Confirms db i accessors = record {
  when = λ env w w' u h.
      let (left, w1, search_done, rest) =
        bind-Returns (find_accounts db i) (finish_gone i accessors) env w w' u h in
      by_left left env w w' w1 u search_done rest;
}
  where
    by_left :
        (left : List Text) (env : Env) (w w' w1 : World) (u : Unit {0})
        → Returns (find_accounts db i) env w left w1
        → Returns (finish_gone i accessors left) env w1 u w'
        → Confirmed db i env w w'
    by_left [] env w w' w1 u found rest =
        let fr = Precedes-frame in
        record {
          at = w;
          after_start = fr.stay w;
          before_end =
              fr.chain w w1 w'
                (Precedes-end (find_accounts db i) env w w1 [] (Follows-find_accounts fr db i)
                  found)
                (Precedes-end (finish_gone i accessors []) env w1 w' u
                  (Follows-finish_gone fr i accessors []) rest);
          empty = ap (λ (t : Outcome (List Text) × World). t.0) found;
        }
    by_left (x ∷ xs) env w w' w1 u found rest = absurd (raise-NeverReturns _ env w1 w' u rest)

pub teardown_steps-Confirms : (i : Text) (g : Grant) → Confirms g.db_type i (teardown_steps i g)
unfolding teardown_steps
teardown_steps-Confirms i g =
    let fr = Precedes-frame in
    let db = g.db_type in
    Confirms-bind db i _ _ (Follows-accessors_of fr i g.token_accessor) (λ accessors.
      Confirms-bind db i _ _ (Follows-find_accounts fr db i) (λ accounts.
        Confirms-then db i _ _
          (Follows-for_each fr accounts _ (λ a. Follows-lock_out_and_terminate fr db a i))
          (Confirms-bind db i _ _ (Follows-list_leases fr i) (λ listed.
            Confirms-then db i _ _ (Follows-for_each fr _ revoke_lease (Follows-revoke_lease fr)) (
              Confirms-bind db i _ _ (Follows-find_accounts fr db i) (λ again.
                Confirms-then db i _ _ (Follows-for_each fr again _ (Follows-drop_account fr db i))
                  (confirm_gone-Confirms db i accessors)))))))
