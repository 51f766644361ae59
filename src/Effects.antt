-- ===== src/Effects.antt =====
-- How a handler runs: the database, the Discord side and Valkey (the locks, the limiter, the cache)
-- as one state, an error that ends a handler, and database calls that the environment lets fail.
use discord_support_hub.Prelude.{◌≡◌, refl, ℕ, String, Option, List, [], ◌∷◌}
use discord_support_hub.Store.Db.{Db, Error, infrastructure, Reply, ok, err, Statement}

-- What becomes of the next database call: it runs, it is lost before the database, or it runs
-- and its answer is lost.
pub data Fault : Type 0 where
  clean lost late : Fault

pub record Env (D L : Type 0) : Type 0 where
  pub db : Db
  pub faults : List Fault
  pub now : ℕ
  pub discord : D
  pub locks : L

-- `lock.Locker`: an empty `Option` is a lock that is held elsewhere.
pub record Locker (L : Type 0) : Type 0 where
  pub acquire_space : String → L → Reply (Option String) × L
  pub release_space : String → String → L → Reply (Unit {0}) × L
  pub acquire_merchant : String → L → Reply (Option String) × L
  pub release_merchant : String → String → L → Reply (Unit {0}) × L

-- An action on a state.
abbrev pub M : Type 0 → Type 0 → Type 0
M S A = S → Reply A × S

abbrev pub continue : {S A B : Type 0} → Reply A × S → (A → M S B) → Reply B × S
continue (ok a, s) f = f a s
continue (err e, s) f = (err e, s)

-- What holds of a sequence: its first step fails, or it goes on from there.
pub continue_rule :
    {S A B : Type 0} (P : Reply B × S → Type 0) (q : Reply A × S) (f : A → M S B)
    → ((x : Error) → q.0 ≡ err x → P (err x, q.1))
    → ((a : A) → q.0 ≡ ok a → P (f a q.1))
    → P (continue q f)
continue_rule P (ok a, s) f failed went_on = went_on a refl
continue_rule P (err x, s) f failed went_on = failed x refl

infixl 5 ◌>>=◌ ◌>>◌
abbrev pub ◌>>=◌ : {S A B : Type 0} → M S A → (A → M S B) → M S B
◌>>=◌ m f s = continue (m s) f

abbrev pub ◌>>◌ : {S A B : Type 0} → M S A → M S B → M S B
◌>>◌ m k s = continue (m s) (λ _. k)

abbrev pub return : {S A : Type 0} → A → M S A
return a s = (ok a, s)

abbrev pub fail : {S A : Type 0} → Error → M S A
fail e s = (err e, s)

-- The error as a value, as in `v, err := call()`.
abbrev pub try : {S A : Type 0} → M S A → M S (Reply A)
try m s = (ok (m s).0, (m s).1)

-- `_ = call()`.
abbrev pub ignore : {S A : Type 0} → M S A → M S (Unit {0})
ignore m s = (ok tt, (m s).1)

-- `defer`: the second action runs in every case, and its error is dropped.
abbrev pub deferring : {S A B : Type 0} → M S B → M S A → M S A
deferring last m s = ((m s).0, (last (m s).1).1)

abbrev pub next_fault : List Fault → Fault
next_fault [] = clean
next_fault (f ∷ fs) = f

abbrev pub later_faults : List Fault → List Fault
later_faults [] = []
later_faults (f ∷ fs) = fs

module _ {D L : Type 0} where
  abbrev pub run_statement : {A : Type 0} → Statement A → Fault → M (Env D L) A
  run_statement st clean e = ((st e.now e.db).0, record e { db = (st e.now e.db).1 })
  run_statement st lost e = (err infrastructure, e)
  run_statement st late e = (err infrastructure, record e { db = (st e.now e.db).1 })

  -- No database call fails.
  abbrev pub calm : Env D L → Env D L
  calm e = record e { faults = [] }

  -- A call of the store.
  unfoldable pub query : {A : Type 0} → Statement A → M (Env D L) A
  query st e = run_statement st (next_fault e.faults) (record e { faults = later_faults e.faults })

  -- A call of Discord; of the queue in the relay.
  unfoldable pub call : {A : Type 0} → (D → Reply A × D) → M (Env D L) A
  call f e = ((f e.discord).0, record e { discord = (f e.discord).1 })

  -- A call of Valkey: of the locker, the limiter or the cache.
  unfoldable pub locking : {A : Type 0} → (L → Reply A × L) → M (Env D L) A
  locking f e = ((f e.locks).0, record e { locks = (f e.locks).1 })
