-- ===== src/Lifecycle/Purges.antt =====
-- backend/app/torrents/lifecycle.py: when a cancellation schedules a purge.
use world_of_seeds.Prelude.{
  if_ind, ℕ, ◌+◌, ◌≤◌, ◌≡◌, refl, ap, ◌∙◌, ◌⊎◌, inl, inr, Bool, true, false, Option, none, some,
  List, [], ◌∷◌, ◌++◌, arith, ◌==◌, ==_iff, Option-cases, any, OnOk, OnOk-check,
}
use world_of_seeds.Models.{
  Uuid, Instant, hours, ManagedTorrent, TorrentRequest, TorrentJob, User, queued, purge,
  is_active_state,
}
use world_of_seeds.Storage.{Tables}
use world_of_seeds.Lifecycle.Rows.{
  update_torrent, deferred, get_torrent, find_request, remaining, schedule_deferred_purge, Store,
  purge_job,
}
use world_of_seeds.Lifecycle.Rights.{
  TorrentCancellationResult, validate_lifecycle_hours, is_cancelled, end_request, cancelled_row,
  cancel_deadline, cancel_active, cancel_found, cancel_owned_torrent_request,
}

get_torrent-id :
    (ts : List ManagedTorrent) (i : Uuid) {t : ManagedTorrent}
    → get_torrent ts i ≡ some t
    → t.id ≡ i
unfolding get_torrent
get_torrent-id [] i h = cc
get_torrent-id (x ∷ ts) i {t} h = ground (arith, get_torrent-id ts i {t = t})

get_torrent-update :
    (ts : List ManagedTorrent) (i : Uuid) (f : ManagedTorrent → ManagedTorrent)
    → ((t : ManagedTorrent) → (f t).id ≡ t.id)
    → {t : ManagedTorrent} → get_torrent ts i ≡ some t
    → get_torrent (update_torrent i f ts) i ≡ some (f t)
unfolding get_torrent update_torrent
get_torrent-update [] i f same h = cc
get_torrent-update (x ∷ ts) i f same {t} h =
    ground (arith, same x, get_torrent-update ts i f same {t = t})

-- The job is a new purge of a torrent that nobody has a right to any more, due within the retention and
-- keyed by the torrent's next generation, which the torrent's row has after the cancellation.
pub record IsPurge (s after : Tables) (now : Instant) (retention_hours : ℕ)
    (result : TorrentCancellationResult) (job : TorrentJob) (t t' : ManagedTorrent) : Type 0 where
  pub known : get_torrent s.torrents result.managed_torrent_id ≡ some t
  pub marked : get_torrent after.torrents result.managed_torrent_id ≡ some t'
  pub next_generation : t'.lifecycle_generation ≡ t.lifecycle_generation + 1
  pub deadline_stored : t'.purge_after ≡ some job.available_at
  pub of_torrent : job.managed_torrent_id ≡ result.managed_torrent_id
  pub of_request : job.torrent_request_id ≡ some result.request_id
  pub of_type : job.job_type ≡ "PURGE_TORRENT"
  pub keyed : job.idempotency_key ≡ purge t'.id t'.lifecycle_generation
  pub waits : job.state ≡ queued
  pub untried : (job.attempt_count ≡ 0) × (job.max_attempts ≡ 20)
  pub nobody : remaining after job.managed_torrent_id ≡ 0
  pub deadline : result.purge_after ≡ some job.available_at
  pub not_before : now ≤ job.available_at
  pub not_after : job.available_at ≤ now + hours retention_hours

-- Nothing was scheduled, no torrent changed and the result says so; or one job was, a purge.
abbrev Schedules : Store → Instant → ℕ → Store × TorrentCancellationResult → Type 0
Schedules s now retention_hours (after, result) =
    ((after.jobs ≡ s.jobs)
      × (after.tables.torrents ≡ s.tables.torrents)
      × (result.purge_scheduled ≡ false))
    ⊎ ((job : TorrentJob) × (t t' : ManagedTorrent) × (after.jobs ≡ s.jobs ++ job ∷ [])
        × (result.purge_scheduled ≡ true)
        × IsPurge s.tables after.tables now retention_hours result job t t')

abbrev pub SchedulesAny : Store → Instant → ℕ → Store × Option TorrentCancellationResult → Type 0
SchedulesAny s now retention_hours (after, none) =
    (after.jobs ≡ s.jobs) × (after.tables.torrents ≡ s.tables.torrents)
SchedulesAny s now retention_hours (after, some result) =
    Schedules s now retention_hours (after, result)

module _ (job_id : Uuid) (created now : Instant) (retention_hours : ℕ) (detect : Bool)
    (s : Store) where
  cancel_active-Schedules :
      (r : TorrentRequest) (t : ManagedTorrent)
      → get_torrent s.tables.torrents t.id ≡ some t
      → Schedules s now retention_hours
          (cancel_active job_id created now retention_hours detect r t s)
  unfolding cancel_active end_request schedule_deferred_purge purge_job deferred remaining
      cancel_deadline
  cancel_active-Schedules r t known =
      let db = end_request (cancelled_row now) t.total_size now r s.tables in
      let due = cancel_deadline t now retention_hours in
      if_ind (Schedules s now retention_hours) (remaining db t.id == 0)
        (λ e. inr (
          _,
          t,
          deferred due now t,
          refl,
          refl,
          record {
            known = known;
            marked = get_torrent-update s.tables.torrents t.id (deferred due now) (λ u. refl) known;
            next_generation = refl;
            deadline_stored = refl;
            of_torrent = refl;
            of_request = refl;
            of_type = refl;
            keyed = refl;
            waits = refl;
            untried = (refl, refl);
            nobody = (==_iff (remaining db t.id) 0).0 e;
            deadline = refl;
            not_before = ground arith;
            not_after = ground arith;
          },
        ))
        (λ e. inl (refl, refl, refl))

  cancel_found-Schedules :
      (r : TorrentRequest) (o : Option ManagedTorrent)
      → get_torrent s.tables.torrents r.managed_torrent_id ≡ o
      → SchedulesAny s now retention_hours
          (cancel_found job_id created now retention_hours detect r o s)
  unfolding cancel_found
  cancel_found-Schedules r none e = (refl, refl)
  cancel_found-Schedules r (some t) e =
      let same = get_torrent-id s.tables.torrents r.managed_torrent_id e in
      let known = ap (get_torrent s.tables.torrents) same ∙ e in
      if_ind (SchedulesAny s now retention_hours) (is_cancelled r.state)
        (λ c. inl (refl, refl, refl))
        (λ c.
          if_ind (SchedulesAny s now retention_hours) (is_active_state r.state)
            (λ a. cancel_active-Schedules r t known) (λ a. (refl, refl)))

  -- A cancellation adds no job and changes no torrent, or it adds one job: a PURGE_TORRENT job of the
  -- cancelled request and its torrent, to which nobody has a right any more, queued with no attempt made
  -- and 20 allowed, keyed by the torrent and its next generation, and available at the time that the result
  -- tells, not before the cancellation and not after the retention. The torrent's row then has that
  -- generation and that time.
  pub cancel-Schedules :
      (user torrent_request_id : Uuid)
      → OnOk (SchedulesAny s now retention_hours) (
          cancel_owned_torrent_request job_id created now user torrent_request_id retention_hours
            detect s)
  unfolding cancel_owned_torrent_request validate_lifecycle_hours
  cancel-Schedules user torrent_request_id =
      OnOk-check _ (validate_lifecycle_hours retention_hours) _ (λ e.
        elim (Option-cases (find_request s.tables.requests torrent_request_id user)) [
          | inl gone ↦ rw gone (refl, refl)
          | inr (r, found) ↦ rw found (
              if_ind (SchedulesAny s now retention_hours)
                (any (λ (u : User). u.id == user) s.tables.users)
                (λ e. cancel_found-Schedules r _ refl) (λ e. (refl, refl)))
        ])
