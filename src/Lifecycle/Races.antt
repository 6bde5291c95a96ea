-- ===== src/Lifecycle/Races.antt =====
-- backend/app/torrents/deduplication.py: the errors for a lost race do not occur where requests come one
-- after the other.
use world_of_seeds.Prelude.{
  if_ind, ◌≡◌, refl, ap, ◌∙◌, inl, inr, Bool, true, false, not, ◌&&◌, ◌||◌, Option, none, some,
  List, [], ◌∷◌, head?, arith, str_eq, eq_iff, ◌==◌, between, is_some, Bool-cases, Option-cases,
  where_rows, any, all, Result, ok, err, ◌>>◌, OnErr, OnErr-bind, OnErr-guard, OnErr-map, OnOk_at,
}
use world_of_seeds.Models.{Uuid, Instant, ManagedTorrent, TorrentRequest}
use world_of_seeds.Jobs.Queue.{Jobs}
use world_of_seeds.Storage.{Tables, StorageError}
use world_of_seeds.Storage.Accounting.{find_torrent, prepare_storage_accounting, is_purged}
use world_of_seeds.Storage.Balance.{prepared_counters}
use world_of_seeds.Lifecycle.Rows.{Store, update_torrent}
use world_of_seeds.Lifecycle.Visibility.{is_active_user}
use world_of_seeds.Lifecycle.Rights.{end_request, expired_row, is_due_request}
use world_of_seeds.Lifecycle.Sums.{all_ids-update_request}
use world_of_seeds.Lifecycle.Balance.{expired-Ends}
use world_of_seeds.Lifecycle.Requests.{
  DeduplicationError, metadata_conflict, bad_unsubscribe_hours, owner_missing, torrent_race,
  request_race, RequestInput, validate_metadata, insert_managed_torrent, is_right_of,
  active_request, request_conflicts, insert_torrent_request, revived, expire_due, torrent_conflicts,
  refuse, found_or, grant, admit_request, create_or_get_torrent_request,
}
use world_of_seeds.Lifecycle.Debts.{first_state-active}

abbrev pub is_race : DeduplicationError → Bool
is_race torrent_race = true
is_race request_race = true
is_race _ = false

-- The error is not the loss of a race.
abbrev pub IsNoRace : DeduplicationError → Type 0
IsNoRace e = is_race e ≡ false

OnErr-check {ℓ} :
    {A : Type ℓ} (m : Result DeduplicationError (Unit {0})) (k : Result DeduplicationError A)
    → OnErr IsNoRace m
    → OnErr IsNoRace k
    → OnErr IsNoRace (m >> k)
OnErr-check m k h j = OnErr-bind IsNoRace m (λ _. k) h (λ _ _. j)

OnErr-refuse {ℓ} : {A : Type ℓ} (r : Result StorageError A) → OnErr IsNoRace (refuse r)
OnErr-refuse (ok a) = tt
OnErr-refuse (err e) = refl

refuse_ok {ℓ} : {A : Type ℓ} (r : Result StorageError A) {a : A} → refuse r ≡ ok a → r ≡ ok a
refuse_ok (ok b) h = cc h
refuse_ok (err e) h = cc h

OnErr-found {ℓ} :
    {A : Type ℓ} (e : DeduplicationError) (o : Option A)
    → is_some o ≡ true
    → OnErr IsNoRace (found_or e o)
OnErr-found e none h = absurd (cc h)
OnErr-found e (some a) h = tt

validate-IsNoRace : (i : RequestInput) → OnErr IsNoRace (validate_metadata i)
unfolding validate_metadata
validate-IsNoRace i = ground arith

revived-IsNoRace : (now : Instant) (t : ManagedTorrent) → OnErr IsNoRace (revived now t)
unfolding revived
revived-IsNoRace now t = ground arith

-- A selection that some row passes is not empty.
some_row {ℓ} :
    {A : Type ℓ} (p : A → Bool) (xs : List A)
    → any p xs ≡ true
    → is_some (head? (where_rows p xs)) ≡ true
some_row p [] h = cc h
some_row p (x ∷ xs) h = ground (arith, some_row p xs)

by_hash :
    (i : RequestInput) (ts : List ManagedTorrent)
    → all (λ (t : ManagedTorrent). not (t.id == i.managed_id || t.storage_key == i.storage_key)) ts
      ≡ true
    → torrent_conflicts i ts ≡ true
    → any (λ t. str_eq t.info_hash i.info_hash) ts ≡ true
unfolding torrent_conflicts
by_hash i [] h k = cc k
by_hash i (t ∷ ts) h k = ground (arith, by_hash i ts)

upserted_is_found :
    (i : RequestInput) (db : Tables)
    → all
        (λ (t : ManagedTorrent). not (t.id == i.managed_id || t.storage_key == i.storage_key))
        db.torrents
      ≡ true
    → is_some (find_torrent (insert_managed_torrent i db).0.torrents i.info_hash) ≡ true
unfolding insert_managed_torrent find_torrent
upserted_is_found i db h = elim (Bool-cases (torrent_conflicts i db.torrents)) [
  | inl taken ↦
      rw taken
        (some_row (λ t. str_eq t.info_hash i.info_hash) db.torrents (by_hash i db.torrents h taken))
  | inr free ↦ rw free (rw ((eq_iff i.info_hash i.info_hash).1 refl) refl)
]

-- No request has the identifier of the new one.
abbrev IsFresh : RequestInput → List TorrentRequest → Type 0
IsFresh i rs = all (λ (r : TorrentRequest). not (r.id == i.request_id)) rs ≡ true

expire_due-IsFresh :
    (i : RequestInput) (t : ManagedTorrent) (db : Tables)
    → IsFresh i db.requests
    → IsFresh i (expire_due i t db).requests
unfolding expire_due end_request
expire_due-IsFresh i t db h = elim (Option-cases (active_request db.requests i.user_id t.id)) [
  | inl gone ↦ rw (expire_due, gone) h
  | inr (r, found) ↦
      rw (expire_due, found)
        (if_ind (λ (x : Tables). IsFresh i x.requests) (is_due_request i.now r)
          (λ e.
            all_ids-update_request r.id (expired_row i.now) db.requests i.request_id
              (expired-Ends i.now).keeps
            ∙ h)
          (λ e. h))
]

by_right :
    (i : RequestInput) (torrent_id : Uuid) (rs : List TorrentRequest)
    → IsFresh i rs
    → request_conflicts i torrent_id rs ≡ true
    → any (is_right_of i.user_id torrent_id) rs ≡ true
unfolding request_conflicts
by_right i torrent_id [] h k = cc k
by_right i torrent_id (r ∷ rs) h k = ground (arith, by_right i torrent_id rs)

right_is_found :
    (i : RequestInput) (t : ManagedTorrent) (db : Tables)
    → IsFresh i db.requests
    → is_some (active_request (insert_torrent_request i t db).0.requests i.user_id t.id) ≡ true
unfolding insert_torrent_request active_request
right_is_found i t db h = elim (Bool-cases (request_conflicts i t.id db.requests)) [
  | inl taken ↦
      rw taken
        (some_row (is_right_of i.user_id t.id) db.requests (by_right i t.id db.requests h taken))
  | inr free ↦
      let (active, id, owner, whose) = first_state-active i t in
      rw free (ground (arith, active, owner, whose))
]

grant-IsNoRace :
    (i : RequestInput) (t : ManagedTorrent) (missing : Bool) (db : Tables)
    → IsFresh i db.requests
    → OnErr IsNoRace (grant i t missing db)
unfolding grant
grant-IsNoRace i t missing db h =
    let preparation =
      prepare_storage_accounting db i.user_id i.info_hash i.total_size i.storage_policy
        i.disk_snapshot i.now (some missing) in
    OnErr-bind IsNoRace (refuse preparation) _ (OnErr-refuse preparation)
      (λ (prepared, context) same.
        let requests : prepared.requests ≡ db.requests =
          (OnOk_at _ preparation
            (prepared_counters db i.user_id i.info_hash i.total_size i.storage_policy
              i.disk_snapshot i.now (some missing))
            (refuse_ok preparation same)).3 in
        let fresh : IsFresh i prepared.requests =
          ap (λ rs. all (λ (r : TorrentRequest). not (r.id == i.request_id)) rs) requests ∙ h in
        let inserted = insert_torrent_request i t prepared in
        OnErr-map IsNoRace
          (found_or request_race (active_request inserted.0.requests i.user_id t.id)) _
          (OnErr-found request_race (active_request inserted.0.requests i.user_id t.id)
            (right_is_found i t prepared fresh)))

admit-IsNoRace :
    (i : RequestInput) (created : Bool) (t : ManagedTorrent) (db : Tables) (jobs : Jobs)
    → IsFresh i db.requests
    → OnErr IsNoRace (admit_request i created t db jobs)
unfolding admit_request
admit-IsNoRace i created t db jobs h =
    OnErr-guard IsNoRace (str_eq t.name i.name && t.total_size == i.total_size) metadata_conflict _
      refl
      (OnErr-bind IsNoRace (revived i.now t) _ (revived-IsNoRace i.now t) (λ (u, called_off) same.
        let changed = record db { torrents = update_torrent t.id (λ _. u) db.torrents } in
        OnErr-map IsNoRace (grant i u (created || is_purged t.state) (expire_due i u changed)) _ (
          grant-IsNoRace i u (created || is_purged t.state) (expire_due i u changed)
            (expire_due-IsFresh i u changed h))))

inserted-IsFresh :
    (i : RequestInput) (db : Tables)
    → IsFresh i db.requests
    → IsFresh i (insert_managed_torrent i db).0.requests
unfolding insert_managed_torrent
inserted-IsFresh i db h =
    if_ind (λ (x : Tables × Bool). IsFresh i x.0.requests) (torrent_conflicts i db.torrents)
      (λ e. h) (λ e. h)

-- Where no torrent has the new torrent's identifier or storage key and no request has the new request's
-- identifier, a request is not answered by the error for a lost race: the upserted torrent and the right
-- are found.
pub create-IsNoRace :
    (i : RequestInput) (s : Store)
    → all
        (λ (t : ManagedTorrent). not (t.id == i.managed_id || t.storage_key == i.storage_key))
        s.tables.torrents
      ≡ true
    → all (λ (r : TorrentRequest). not (r.id == i.request_id)) s.tables.requests ≡ true
    → OnErr IsNoRace (create_or_get_torrent_request i s)
unfolding create_or_get_torrent_request
create-IsNoRace i s h fresh =
    let inserted = insert_managed_torrent i s.tables in
    OnErr-check (validate_metadata i) _ (validate-IsNoRace i) (
      OnErr-guard IsNoRace (between 1 2160 i.auto_unsubscribe_hours) bad_unsubscribe_hours _ refl (
        OnErr-guard IsNoRace (is_active_user s.tables.users i.user_id) owner_missing _ refl (
          OnErr-bind IsNoRace (found_or torrent_race (find_torrent inserted.0.torrents i.info_hash))
            _
            (OnErr-found torrent_race (find_torrent inserted.0.torrents i.info_hash)
              (upserted_is_found i s.tables h))
            (λ t same.
              admit-IsNoRace i inserted.1 t inserted.0 s.jobs
                (inserted-IsFresh i s.tables fresh)))))
