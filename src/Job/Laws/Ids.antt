-- ===== src/Job/Laws/Ids.antt =====
-- Job ids: `job_create` gives one that no job has.
use mrsh.Base.{ℕ, ◌+◌, ◌≤◌, ◌<◌, ◌≡◌, ◌≢◌, ok, >>=-ok, List, [], ◌∷◌, ◌++◌, arith}
use mrsh.Ast.Node.{Node, node_copy}
use mrsh.Job.Table.{Job, Table, new_job, next_id, job_create, remove_job}

-- Every id is positive and below `n`.
abbrev pub AllBelow : ℕ → List Job → Type 0
AllBelow n [] = Unit
AllBelow n (job ∷ jobs) = (0 < job.job_id) × (job.job_id < n) × AllBelow n jobs

abbrev pub NoneHas : ℕ → List Job → Type 0
NoneHas id [] = Unit
NoneHas id (job ∷ jobs) = (job.job_id ≢ id) × NoneHas id jobs

-- No two jobs have the same id, and ids are positive.
abbrev pub AreDistinct : List Job → Type 0
AreDistinct [] = Unit
AreDistinct (job ∷ jobs) = (0 < job.job_id) × NoneHas job.job_id jobs × AreDistinct jobs

next_id-le : (id : ℕ) (jobs : List Job) → id ≤ next_id id jobs
unfolding next_id
next_id-le id [] = omega arith
next_id-le id (job ∷ jobs) = ground (arith, next_id-le (job.job_id + 1) jobs, next_id-le id jobs)

-- The id found is none of those in the list.
next_id-NoneHas : (id : ℕ) (jobs : List Job) → (m : ℕ) → next_id id jobs ≤ m → NoneHas m jobs
unfolding next_id
next_id-NoneHas id [] m h = tt
next_id-NoneHas id (job ∷ jobs) m h = (
  ground (arith, next_id-le (job.job_id + 1) jobs, next_id-le id jobs),
  ground (arith, next_id-NoneHas (job.job_id + 1) jobs m, next_id-NoneHas id jobs m),
)

NoneHas-concat :
    (id : ℕ) (jobs : List Job) (job : Job)
    → NoneHas id jobs
    → job.job_id ≢ id
    → NoneHas id (jobs ++ job ∷ [])
NoneHas-concat id [] job h n = (n, tt)
NoneHas-concat id (j ∷ jobs) job h n = (h.0, NoneHas-concat id jobs job h.1 n)

AreDistinct-concat :
    (jobs : List Job) (job : Job)
    → AreDistinct jobs
    → 0 < job.job_id
    → NoneHas job.job_id jobs
    → AreDistinct (jobs ++ job ∷ [])
AreDistinct-concat [] job h p n = (p, tt, tt)
AreDistinct-concat (j ∷ jobs) job h p n = (
  h.0,
  NoneHas-concat j.job_id jobs job h.1 (λ e. n.0 (cc e)),
  AreDistinct-concat jobs job h.2 p n.1,
)

remove-NoneHas : (id m : ℕ) (jobs : List Job) → NoneHas m jobs → NoneHas m (remove_job id jobs)
unfolding remove_job
remove-NoneHas id m [] h = tt
remove-NoneHas id m (job ∷ jobs) h = ground (arith, remove-NoneHas id m jobs h.1)

-- Removing a job keeps the ids of the others distinct.
pub remove_job-AreDistinct :
    (id : ℕ) (jobs : List Job) → AreDistinct jobs → AreDistinct (remove_job id jobs)
unfolding remove_job
remove_job-AreDistinct id [] h = tt
remove_job-AreDistinct id (job ∷ jobs) h =
    ground (arith, remove_job-AreDistinct id jobs h.2, remove-NoneHas id job.job_id jobs h.1)

-- In a table whose job ids are positive and distinct, a job that is created has an id that no other job
-- has, and the ids stay positive and distinct.
pub job_create-AreDistinct :
    (t u : Table) (node : Node) (job : Job)
    → AreDistinct t.jobs
    → job_create t node ≡ ok (job, u)
    → NoneHas job.job_id t.jobs × AreDistinct u.jobs
unfolding job_create
job_create-AreDistinct t u node job h e =
    let (copy, copied, made) = >>=-ok (node_copy node) _ (job, u) e in
    let fresh : NoneHas (next_id 1 t.jobs) t.jobs = next_id-NoneHas 1 t.jobs _ (omega arith) in
    let p : new_job (next_id 1 t.jobs) copy ≡ job = cc in
    let q : record t { jobs = t.jobs ++ new_job (next_id 1 t.jobs) copy ∷ [] } ≡ u = cc in
    rw (← p, ← q) (fresh, AreDistinct-concat t.jobs _ h (omega (arith, next_id-le 1 t.jobs)) fresh)
