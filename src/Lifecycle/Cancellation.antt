-- ===== src/Lifecycle/Cancellation.antt =====
-- backend/app/torrents/lifecycle.py: the cancellation of a right, and the batch that expires the due ones,
-- keep the counters in agreement with the sums.
use world_of_seeds.Prelude.{
  if_ind, ℕ, ◌≡◌, refl, sym, ap, ◌∙◌, inl, inr, Bool, true, ◌&&◌, Option, none, some, List, [], ◌∷◌,
  head?, ◌==◌, ==_iff, Option-cases, any, mem_of_mem-where_rows, OnOk, OnOk-check,
}
use mathlib.Core.List.{Memᴰ}
use world_of_seeds.Models.{Uuid, Instant, ManagedTorrent, TorrentRequest, User, is_active_state}
use world_of_seeds.Storage.{Tables}
use world_of_seeds.Storage.Reconcile.{joined_size}
use world_of_seeds.Lifecycle.Rows.{get_torrent, find_request, remaining, Store}
use world_of_seeds.Lifecycle.Rights.{
  TorrentCancellationResult, validate_lifecycle_hours, is_cancelled, end_request, cancelled_row,
  cancel_deadline, cancel_active, cancel_found, cancel_owned_torrent_request,
}
use world_of_seeds.Lifecycle.Sums.{distinct_torrents}
use world_of_seeds.Lifecycle.Balance.{
  joined_size_at, IsRight, IsSound, cancelled-Ends, end_request-IsBalanced, end_request-distinct,
  schedule-IsSound,
}

pub head-mem {ℓ} : {A : Type ℓ} (xs : List A) {x : A} → head? xs ≡ some x → Memᴰ x xs
head-mem [] h = cc
head-mem (y ∷ ys) h = Memᴰ.head (cc h)

find_request-mem :
    (rs : List TorrentRequest) (i user : Uuid) {r : TorrentRequest}
    → find_request rs i user ≡ some r
    → Memᴰ r rs
unfolding find_request
find_request-mem rs i user h =
    (mem_of_mem-where_rows (λ r. r.id == i && r.user_id == user) rs (head-mem _ h)).0

get_torrent-mem :
    (ts : List ManagedTorrent) (i : Uuid) {t : ManagedTorrent}
    → get_torrent ts i ≡ some t
    → Memᴰ t ts × (t.id ≡ i)
unfolding get_torrent
get_torrent-mem ts i {t} h =
    let (there, same) = mem_of_mem-where_rows (λ t. t.id == i) ts (head-mem _ h) in
    (there, (==_iff t.id i).0 same)

-- The right whose torrent was found counts as many bytes as the torrent has.
found-IsRight :
    (db : Tables) (r : TorrentRequest) (t : ManagedTorrent)
    → distinct_torrents db.torrents ≡ true
    → Memᴰ r db.requests
    → is_active_state r.state ≡ true
    → Memᴰ t db.torrents
    → t.id ≡ r.managed_torrent_id
    → IsRight db t.total_size r
found-IsRight db r t h known active there same = record {
  known = known;
  active = active;
  sized = ap (joined_size db.torrents) (sym same) ∙ joined_size_at db.torrents h there;
}

module _ (job_id : Uuid) (created now : Instant) (retention_hours : ℕ) (detect : Bool)
    (s : Store) where
  cancel_active-IsSound :
      (r : TorrentRequest) (t : ManagedTorrent)
      → IsRight s.tables t.total_size r
      → IsSound s.tables
      → IsSound (cancel_active job_id created now retention_hours detect r t s).0.tables
  unfolding cancel_active
  cancel_active-IsSound r t right sound =
      let db = end_request (cancelled_row now) t.total_size now r s.tables in
      let ended : IsSound db = record {
        balanced =
            end_request-IsBalanced (cancelled_row now) (cancelled-Ends now) t.total_size now r
              s.tables sound.distinct right sound.balanced;
        distinct =
            end_request-distinct (cancelled_row now) (cancelled-Ends now) t.total_size now r
              s.tables sound.distinct;
      } in
      if_ind (λ (x : Store × TorrentCancellationResult). IsSound x.0.tables)
        (remaining db t.id == 0)
        (λ e.
          schedule-IsSound job_id created t (some r.id) (cancel_deadline t now retention_hours) now
            (record s { tables = db }) ended)
        (λ e. ended)

  cancel_found-IsSound :
      (r : TorrentRequest) (o : Option ManagedTorrent)
      → ((t : ManagedTorrent)
          → o ≡ some t
          → is_active_state r.state ≡ true
          → IsRight s.tables t.total_size r)
      → IsSound s.tables
      → IsSound (cancel_found job_id created now retention_hours detect r o s).0.tables
  unfolding cancel_found
  cancel_found-IsSound r none right sound = sound
  cancel_found-IsSound r (some t) right sound =
      if_ind (λ (x : Store × Option TorrentCancellationResult). IsSound x.0.tables)
        (is_cancelled r.state) (λ e. sound)
        (λ e.
          if_ind (λ (x : Store × Option TorrentCancellationResult). IsSound x.0.tables)
            (is_active_state r.state) (λ a. cancel_active-IsSound r t (right t refl a) sound)
            (λ a. sound))

  -- Where the counters agree with the sums over the rights, and no two requests and no two torrents have
  -- one identifier, they still agree after a user has cancelled a right, the last one of its torrent or not.
  pub cancel-IsSound :
      (user torrent_request_id : Uuid)
      → IsSound s.tables
      → distinct_torrents s.tables.torrents ≡ true
      → OnOk
          (λ r. IsSound r.0.tables)
          (cancel_owned_torrent_request job_id created now user torrent_request_id retention_hours
            detect s)
  unfolding cancel_owned_torrent_request validate_lifecycle_hours
  cancel-IsSound user torrent_request_id sound h =
      OnOk-check _ (validate_lifecycle_hours retention_hours) _ (λ e.
        elim (Option-cases (find_request s.tables.requests torrent_request_id user)) [
          | inl gone ↦ rw gone sound
          | inr (r, found) ↦ rw found (
              if_ind (λ (x : Store × Option TorrentCancellationResult). IsSound x.0.tables)
                (any (λ (u : User). u.id == user) s.tables.users)
                (λ e.
                  cancel_found-IsSound r (get_torrent s.tables.torrents r.managed_torrent_id)
                    (λ t there active.
                      let (m, same) =
                        get_torrent-mem s.tables.torrents r.managed_torrent_id there in
                      found-IsRight s.tables r t h
                        (find_request-mem s.tables.requests torrent_request_id user found) active m
                        same)
                    sound)
                (λ e. sound))
        ])
