-- ===== src/Jobs/Tests.antt =====
-- The job queue over indices in memory.
use code_rag.Prelude.{
  ℕ, ◌+◌, String, ◌≡◌, refl, subst, ◌⊎◌, false, none, some, List, [], ◌∷◌, nat_eq, string_eq,
  list_eq, pair_eq, option_eq,
}
use code_rag.Prelude.Dict
use code_rag.Prelude.Dict.{get-put_self}
use code_rag.Prelude.Sort.{sort_by, insert_sorted}
use code_rag.Documents.Index.{DocumentIndex}
use code_rag.Documents.Memory
use code_rag.Documents.Memory.{memory}
use code_rag.Jobs.Records.{
  queued, running, succeeded, failed, IndexJobResult, IndexJobRecord, Payload, GitLabProject,
  job_status,
}
use code_rag.Jobs.Store.{
  ok, JobStore, is_claimable, claim_update, claim_doc, claim_first, claim_next_job, get_record,
  finish_job, fail_job, final_status, enqueue_job,
}
use code_rag.Jobs.Queue.{Indexer, new_record, submit, execute, poll}
use code_rag.Jobs.Writes.{Wrote}
use code_rag.Jobs.Claims.{claim_race}
use code_rag.Jobs.Held.{IsFree, IsHeldBy, claim_next_job-IsHeldBy}
use code_rag.Jobs.Writes.{Wrote}
use code_rag.Jobs.Locks.{
  Event, submit_event, claim_event, finish_event, fail_event, IsConsistent, happen, history,
  history-IsConsistent,
}
use code_rag.Jobs.Rounds.{finished_record, failed_record, late_failure, settled, poll_settles}
use code_rag.Jobs.Submissions.{after_submit, submit_lem}

abbrev results : DocumentIndex IndexJobResult
results = memory IndexJobResult

abbrev statuses : DocumentIndex IndexJobRecord
statuses = memory IndexJobRecord

abbrev project : GitLabProject
project = record {
  gitlab_project_id = "7";
  repo_path_with_namespace = "group/service";
  repo_name = "service";
  repo_url = "https://gitlab.com/group/service.git";
  default_branch = none;
  description = none;
}

abbrev payload : Payload
payload = record {
  project = some project;
  branch = none;
  commit_sha = none;
  old_sha = none;
  new_sha = none;
  changes = none;
  fallback_to_full_index = false;
}

abbrev indexed : IndexJobResult
indexed = record {
  job_id = "other";
  job_type = "full_repo_index";
  gitlab_project_id = "7";
  repo_path_with_namespace = "group/service";
  branch = "develop";
  old_sha = none;
  new_sha = "abc";
  status = succeeded;
  started_at = 1;
  finished_at = 2;
  files_seen = 3;
  files_added = 3;
  files_modified = 3;
  files_deleted = 0;
  files_renamed = 0;
  chunks_added = 9;
  chunks_deleted = 0;
  error_message = none;
}

-- A service that counts its calls.
abbrev service : Indexer ℕ
service = record {
  full_index_project = λ p branch sha w. (w + 1, indexed);
  incremental_index_project = λ p old new changes branch w. (w + 1, indexed);
  compare = λ p old new w. ok [];
  describe = λ e. "error";
}

abbrev empty : JobStore results statuses
empty = record { jobs = []; records = [] }

abbrev job : IndexJobRecord
job = record {
  job_id = "j";
  status = queued;
  job_type = "full_repo_index";
  submitted_at = 1;
  started_at = none;
  finished_at = none;
  result = none;
  error_message = none;
  payload = payload;
  locked_by = none;
  lock_expires_at = none;
  attempts = 0;
}

abbrev waiting : JobStore results statuses
waiting = record { jobs = []; records = ("j", (job, 0)) ∷ [] }

abbrev held : IndexJobRecord
held = record job {
  status = running;
  started_at = some 5;
  locked_by = some "w1";
  lock_expires_at = some 905;
  attempts = 1;
}

abbrev claimed : JobStore results statuses
claimed = record { jobs = []; records = ("j", (held, 1)) ∷ [] }

program : Unit {0}
unfolding submit enqueue_job new_record claim_next_job claim_first claim_update claim_doc
    is_claimable get_record finish_job fail_job final_status poll execute Memory.write Memory.create
    Memory.update Memory.update_if Memory.search Memory.matches Dict.get Dict.put sort_by
    insert_sorted
program = tt

submitted : (submit results statuses "j" "full_repo_index" payload 1 empty).0 ≡ waiting
unfolding program
submitted = refl

first_claim : claim_next_job results statuses "w1" 5 900 waiting ≡ (claimed, some held)
unfolding program
first_claim = refl

submit_lem_example :
    let r = new_record "j" "full_repo_index" 1 payload in
    let kept = after_submit results statuses r (get_record results statuses "j" empty) in
    let first = submit results statuses "j" "full_repo_index" payload 1 empty in
    let second = submit results statuses "j" "incremental_index" payload 2 first.0 in
    Wrote results statuses "j" kept empty first.0
    × (first.1 ≡ ok (job_status kept))
    × Wrote results statuses "j" kept empty second.0
    × (second.1 ≡ first.1)
submit_lem_example =
    submit_lem results statuses "j" "full_repo_index" "incremental_index" payload payload 1 2 empty

claim_next_job-IsHeldBy_example :
    (id : String) × (d : IndexJobRecord) × (get_record results statuses id waiting ≡ some d)
    × IsFree 5 d
    × IsHeldBy "w1" 5 900 d held
    × Wrote results statuses id held waiting claimed
    × (claimed.jobs ≡ waiting.jobs)
claim_next_job-IsHeldBy_example =
    claim_next_job-IsHeldBy results statuses "w1" 5 900 waiting claimed held first_claim

claim_race_example :
    (claim_first results statuses "w2" 6 900
        (("j", (job, 0)) ∷ [])
        (claim_first results statuses "w1" 5 900 (("j", (job, 0)) ∷ []) waiting).0
      ≡ claim_first results statuses "w2" 6 900 []
          (claim_first results statuses "w1" 5 900 (("j", (job, 0)) ∷ []) waiting).0)
    × ((claim_first results statuses "w1" 5 900 (("j", (job, 0)) ∷ []) waiting).1
        ≡ some (claim_update "w1" 5 900 job))
claim_race_example =
    claim_race results statuses "w1" "w2" 5 6 900 900 "j" job 0 [] [] waiting
      (unfold program in refl)

empty-IsConsistent : IsConsistent results statuses empty
unfolding program
empty-IsConsistent = record { at = λ id r h. cc }

abbrev events : List Event
events =
    submit_event "j" "full_repo_index" payload 1
    ∷ claim_event "w1" 5 900
    ∷ finish_event "j" indexed 9
    ∷ fail_event "j" "late" 12
    ∷ []

history-IsConsistent_example : IsConsistent results statuses (history results statuses events empty)
history-IsConsistent_example = history-IsConsistent results statuses events empty empty-IsConsistent

waiting-IsConsistent : IsConsistent results statuses waiting
waiting-IsConsistent = subst (IsConsistent results statuses) submitted (
    unfold history happen in
    history-IsConsistent results statuses (submit_event "j" "full_repo_index" payload 1 ∷ []) empty
      empty-IsConsistent)

poll_settles_example :
    Wrote results statuses "j"
      (settled service (execute service held 0).1 9 9 held)
      waiting
      (poll service results statuses "w1" 900 5 9 9 waiting 0).0
    × ((poll service results statuses "w1" 900 5 9 9 waiting 0).2 ≡ some held)
    × (((settled service (execute service held 0).1 9 9 held).status ≡ succeeded)
        ⊎ ((settled service (execute service held 0).1 9 9 held).status ≡ failed))
    × ((settled service (execute service held 0).1 9 9 held).locked_by ≡ none)
poll_settles_example =
    poll_settles service results statuses "w1" 900 5 9 9 waiting claimed 0 held waiting-IsConsistent
      first_claim

late_failure_example :
    (get_record results statuses "j" (finish_job results statuses "j" indexed 9 claimed).0
      ≡ some (finished_record indexed 9 held))
    × ((finished_record indexed 9 held).status ≡ succeeded)
    × (get_record results statuses "j"
          (fail_job results statuses "j" "late" 12
            (finish_job results statuses "j" indexed 9 claimed).0).0
        ≡ some (failed_record "late" 12 (finished_record indexed 9 held)))
late_failure_example =
    late_failure results statuses "j" "late" indexed 9 12 claimed held (unfold program in refl) refl
