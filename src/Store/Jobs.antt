-- ===== src/Store/Jobs.antt =====
-- The statements on `jobs`.
use discord_support_hub.Prelude.{
  ℕ, String, Bool, false, ◌&&◌, ◌||◌, not, Option, none, some, List, [], ◌∷◌, ◌++◌, ◌==◌, find,
  update_where, holds, is_some, if◌then◌else◌,
}
use discord_support_hub.Domain.{Job, JobStatus, Fields}
use discord_support_hub.Store.Members.{merchant_refers, space_refers, refers}
use discord_support_hub.Store.Db.{Db, ok, err, database, Statement, scan, returning}

abbrev pub job_by_id : String → Job → Bool
job_by_id i j = j.id == i

unfoldable pub get_job_by_id : String → Statement Job
get_job_by_id id now db = (scan (find (job_by_id id) db.jobs), db)

-- The last row that passes the test.
pub find_last : (Job → Bool) → List Job → Option Job
find_last p [] = none
find_last p (j ∷ js) =
    let later = find_last p js in if is_some later then later else if p j then some j else none

abbrev pub of_space_and_kind : String → String → Job → Bool
of_space_and_kind s k j = holds j.space_id s && j.kind == k

-- ORDER BY created_at DESC LIMIT 1: rows stand in the order of their creation.
unfoldable pub get_job_by_space_id_and_kind : String → String → Statement Job
unfolding find_last
get_job_by_space_id_and_kind s k now db = (scan (find_last (of_space_and_kind s k) db.jobs), db)

pub record CreateJobParams : Type 0 where
  pub task_id : String
  pub kind : String
  pub queue : String
  pub merchant_id : Option String
  pub space_id : Option String
  pub user_id : Option String
  pub payload : Fields

abbrev pub new_job : String → CreateJobParams → ℕ → Job
new_job id p now = record {
  id = id;
  task_id = p.task_id;
  kind = p.kind;
  queue = p.queue;
  status = JobStatus.pending;
  merchant_id = p.merchant_id;
  space_id = p.space_id;
  user_id = p.user_id;
  payload = p.payload;
  error = false;
  retry_count = 0;
  created_at = now;
  updated_at = now;
  completed_at = none;
}

abbrev pub job_refers : CreateJobParams → Db → Bool
job_refers p db =
    merchant_refers p.merchant_id db && (space_refers p.space_id db && refers p.user_id db)

-- The constraint jobs_task_id_key of the table.
abbrev pub task_taken : String → Db → Bool
task_taken t db = is_some (find (λ j. j.task_id == t) db.jobs)

-- The unique constraint and the foreign keys; a violation is not turned into `ErrConflict`.
unfoldable pub create_job : String → CreateJobParams → Statement Job
create_job id p now db =
    if task_taken p.task_id db || not (job_refers p db)
    then (err database, db)
    else (ok (new_job id p now), record db { jobs = db.jobs ++ new_job id p now ∷ [] })

-- `error` says whether a text is given: the texts themselves are not modelled.
pub record UpdateJobStatusParams : Type 0 where
  pub job_id : String
  pub status : JobStatus
  pub error : Bool
  pub retry_count : Option ℕ
  pub completed : Bool

abbrev pub or_else : Option ℕ → ℕ → ℕ
or_else none n = n
or_else (some m) n = m

abbrev pub set_status : UpdateJobStatusParams → ℕ → Job → Job
set_status p now j = record j {
  status = p.status;
  error = p.error || j.error;
  retry_count = or_else p.retry_count j.retry_count;
  updated_at = now;
  completed_at = if p.completed then some now else j.completed_at;
}

unfoldable pub update_job_status : UpdateJobStatusParams → Statement Job
update_job_status p now db = (
  returning (job_by_id p.job_id) (set_status p now) db.jobs,
  record db { jobs = update_where (job_by_id p.job_id) (set_status p now) db.jobs },
)
