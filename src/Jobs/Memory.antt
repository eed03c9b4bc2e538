-- ===== src/Jobs/Memory.antt =====
-- A queue in memory that keeps to the laws: what the tests of the queue run on.
mod Tests
use understandproof.Base.{
  ℕ, suc, ◌+◌, ◌≡◌, refl, sym, ap, subst, ◌∙◌, inl, inr, Bool, true, false, ◌&&◌, List, [], ◌∷◌,
  ◌++◌, Memᴰ, Option, none, some, Text, text_eq, arith, length, ◌==◌, if◌then◌else◌, if_either,
  Bool-cases,
}
use understandproof.Jobs.{JobName, same_name, JobPayload, get_job_singleton_key}
use understandproof.Jobs.Queue.{
  JobState, created, retry, active, completed, cancelled, failed, is_failed_state, QueuedJob,
  JobQueue,
}
use understandproof.Jobs.Queue.Runnable.{Waits, HasWaiting, retried, updated_job, QueueLaws}

pub record Entry : Type 0 where
  pub queue_name : JobName
  pub job : QueuedJob

abbrev is_waiting_state : JobState → Bool
is_waiting_state created = true
is_waiting_state retry = true
is_waiting_state other_state = false

abbrev is_under : JobName → Text → Entry → Bool
is_under name key e = same_name e.queue_name name && e.job.singleton_key == key

abbrev jobs_under : JobName → Text → List Entry → List QueuedJob
jobs_under name key [] = []
jobs_under name key (e ∷ rest) =
    let later = jobs_under name key rest in if is_under name key e then e.job ∷ later else later

abbrev with_job : Entry → QueuedJob → Entry
with_job e job = record { queue_name = e.queue_name; job = job }

-- The entries, with the jobs changed that pass the test.
abbrev change_entry : (Entry → Bool) → (QueuedJob → QueuedJob) → Entry → Entry
change_entry p f e = if p e then with_job e (f e.job) else e

abbrev change : (Entry → Bool) → (QueuedJob → QueuedJob) → List Entry → List Entry
change p f [] = []
change p f (e ∷ rest) = change_entry p f e ∷ change p f rest

abbrev count : (Entry → Bool) → List Entry → ℕ
count p [] = 0
count p (e ∷ rest) = let later = count p rest in if p e then suc later else later

abbrev is_job : JobName → Text → (JobState → Bool) → Entry → Bool
is_job name id p e = same_name e.queue_name name && e.job.id == id && p e.job.state

abbrev start_or : Option ℕ → QueuedJob → ℕ
start_or none job = job.start_after
start_or (some start_after) job = start_after

abbrev new_job : JobPayload → Text → ℕ → QueuedJob
new_job payload key start_after = record {
  id = key;
  singleton_key = key;
  state = created;
  payload = payload;
  start_after = start_after;
}

abbrev upsert_entry : JobName → JobPayload → Text → ℕ → List Entry → List Entry × Text
upsert_entry name payload key start_after [] =
    (record { queue_name = name; job = new_job payload key start_after } ∷ [], key)
upsert_entry name payload key start_after (e ∷ rest) =
    let (later, id) = upsert_entry name payload key start_after rest in
    if is_under name key e && is_waiting_state e.job.state
    then (with_job e (updated_job payload start_after e.job) ∷ rest, e.job.id)
    else (e ∷ later, id)

abbrev pub memory_queue : JobQueue (List Entry)
memory_queue = record {
  find_jobs = λ q name key. jobs_under name key q;
  retry_job = λ q name id. change (is_job name id is_failed_state) retried q;
  update = λ q name payload id start_after. (
    change (is_job name id is_waiting_state)
        (λ job. updated_job payload (start_or start_after job) job) q,
    count (is_job name id is_waiting_state) q,
  );
  upsert = λ q name payload key start_after.
      let (later, id) = upsert_entry name payload key start_after q in (later, id ∷ []);
  send = λ q name payload key.
      (record { queue_name = name; job = new_job payload key 0 } ∷ q, some key);
}

change_entry-is_under :
    (p : Entry → Bool) (f : QueuedJob → QueuedJob) (e : Entry) (name : JobName) (key : Text)
    → ((job : QueuedJob) → (f job).singleton_key ≡ job.singleton_key)
    → is_under name key (change_entry p f e) ≡ is_under name key e
change_entry-is_under p f e name key keeps = elim (Bool-cases (p e)) [
  | inl passes ↦ rw (passes, keeps e.job) refl
  | inr fails ↦ rw fails refl
]

change_first :
    (p : Entry → Bool) (f : QueuedJob → QueuedJob) (e : Entry) (before after : List QueuedJob)
    (job : QueuedJob)
    → (job ≡ e.job → p e ≡ true)
    → (Memᴰ job before → Memᴰ (f job) after)
    → Memᴰ job (e.job ∷ before)
    → Memᴰ (f job) ((change_entry p f e).job ∷ after)
change_first p f e before after job h later (Memᴰ.head same) = Memᴰ.head (rw (h same) (ap f same))
change_first p f e before after job h later (Memᴰ.tail m) = Memᴰ.tail (later m)

change-Memᴰ :
    (p : Entry → Bool) (f : QueuedJob → QueuedJob) (q : List Entry) (name : JobName) (key : Text)
    (job : QueuedJob)
    → ((j : QueuedJob) → (f j).singleton_key ≡ j.singleton_key)
    → ((e : Entry) → e.job ≡ job → same_name e.queue_name name ≡ true → p e ≡ true)
    → Memᴰ job (jobs_under name key q)
    → Memᴰ (f job) (jobs_under name key (change p f q))
change-Memᴰ p f [] name key job keeps h m = elim m [ ]
change-Memᴰ p f (e ∷ rest) name key job keeps h m = elim (Bool-cases (is_under name key e)) [
  | inr elsewhere ↦
      rw (change_entry-is_under p f e name key keeps, elsewhere)
        (change-Memᴰ p f rest name key job keeps h (rw elsewhere at m))
  | inl here ↦
      rw (change_entry-is_under p f e name key keeps, here)
        (change_first p f e (jobs_under name key rest) (jobs_under name key (change p f rest)) job
          (λ same. h e (sym same) (ground (arith, here)))
          (change-Memᴰ p f rest name key job keeps h) (rw here at m))
]

Waits-is_waiting : (s : JobState) → Waits s → is_waiting_state s ≡ true
Waits-is_waiting created w = refl
Waits-is_waiting retry w = refl
Waits-is_waiting active w = absurd w
Waits-is_waiting completed w = absurd w
Waits-is_waiting cancelled w = absurd w
Waits-is_waiting failed w = absurd w

is_waiting-Waits : (s : JobState) → is_waiting_state s ≡ true → Waits s
is_waiting-Waits created e = tt
is_waiting-Waits retry e = tt
is_waiting-Waits active e = absurd (ground (arith, e))
is_waiting-Waits completed e = absurd (ground (arith, e))
is_waiting-Waits cancelled e = absurd (ground (arith, e))
is_waiting-Waits failed e = absurd (ground (arith, e))

is_job-true :
    (name : JobName) (job : QueuedJob) (p : JobState → Bool)
    → p job.state ≡ true
    → (e : Entry) → e.job ≡ job
    → same_name e.queue_name name ≡ true
    → is_job name job.id p e ≡ true
is_job-true name job p passes e same named =
    rw (named, same, (text_eq.same_iff job.id job.id).1 refl, passes) refl

listed_first :
    (name : JobName) (key : Text) (e : Entry) (rest : List Entry)
    → is_under name key e ≡ true
    → Memᴰ e.job (jobs_under name key (e ∷ rest))
listed_first name key e rest here = rw here (Memᴰ.head refl)

listed_later :
    (name : JobName) (key : Text) (e : Entry) (rest : List Entry) (job : QueuedJob)
    → Memᴰ job (jobs_under name key rest)
    → Memᴰ job (jobs_under name key (e ∷ rest))
listed_later name key e rest job m = elim (Bool-cases (is_under name key e)) [
  | inl here ↦ rw here (Memᴰ.tail m)
  | inr elsewhere ↦ rw elsewhere m
]

same_name_self : (name : JobName) → same_name name name ≡ true
same_name_self name = ground arith

upsert_entry-HasWaiting :
    (name : JobName) (payload : JobPayload) (start_after : ℕ) (q : List Entry)
    → let (later, id) =
        upsert_entry name payload (get_job_singleton_key payload.content) start_after q in
      HasWaiting memory_queue later name payload start_after id
upsert_entry-HasWaiting name payload start_after [] =
    let key = get_job_singleton_key payload.content in
    let e : Entry = record { queue_name = name; job = new_job payload key start_after } in
    record {
      job = e.job;
      listed =
          listed_first name key e [] (rw (same_name_self name) ((text_eq.same_iff key key).1 refl));
      same_id = refl;
      same_payload = refl;
      waits = tt;
      due_then = refl;
    }
upsert_entry-HasWaiting name payload start_after (e ∷ rest) =
    let key = get_job_singleton_key payload.content in
    let later = upsert_entry name payload key start_after rest in
    let kept = upsert_entry-HasWaiting name payload start_after rest in
    if_either {A = List Entry × Text}
      (λ r. HasWaiting memory_queue r.0 name payload start_after r.1)
      (is_under name key e && is_waiting_state e.job.state)
      (with_job e (updated_job payload start_after e.job) ∷ rest, e.job.id) (e ∷ later.0, later.1)
      (λ here. record {
        job = updated_job payload start_after e.job;
        listed =
            listed_first name key (with_job e (updated_job payload start_after e.job)) rest
              (ground (arith, here));
        same_id = refl;
        same_payload = refl;
        waits = is_waiting-Waits e.job.state (ground (arith, here));
        due_then = refl;
      })
      (λ other. record {
        job = kept.job;
        listed = listed_later name key e later.0 kept.job kept.listed;
        same_id = kept.same_id;
        same_payload = kept.same_payload;
        waits = kept.waits;
        due_then = kept.due_then;
      })

only_one : {a b : Text} → Memᴰ a (b ∷ []) → a ≡ b
only_one (Memᴰ.head same) = same
only_one (Memᴰ.tail m) = elim m [ ]

pub memory_queue-QueueLaws : QueueLaws memory_queue
memory_queue-QueueLaws = record {
  retry_failed = λ q name key job listed broken.
      change-Memᴰ (is_job name job.id is_failed_state) retried q name key job (λ j. refl)
        (is_job-true name job is_failed_state (rw broken refl)) listed;
  update_waiting = λ q name key job payload start_after listed waits changed.
      change-Memᴰ (is_job name job.id is_waiting_state) (updated_job payload start_after) q name key
        job (λ j. refl) (is_job-true name job is_waiting_state (Waits-is_waiting job.state waits))
        listed;
  upsert_waiting = λ q name payload start_after id m.
      subst
        (HasWaiting memory_queue
          (upsert_entry name payload (get_job_singleton_key payload.content) start_after q).0 name
          payload start_after)
        (sym (only_one m)) (upsert_entry-HasWaiting name payload start_after q);
}
