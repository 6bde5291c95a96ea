-- ===== src/Lifecycle/Examples.antt =====
-- A right that is cancelled, and one that expires (backend/app/torrents/lifecycle.py), and what the queue
-- shows of it (backend/app/scheduler/queue_visibility.py).
use world_of_seeds.Prelude.{
  ◌+◌, ◌≡◌, refl, true, false, none, some, [], ◌∷◌, arith, any, OnOk, OnErr,
}
use world_of_seeds.Prelude.Dict.{get_or}
use world_of_seeds.Models.{
  normal, ManagedTorrent, ManagedTorrentState, TorrentRequest, TorrentRequestState,
}
use world_of_seeds.Storage.{Tables}
use world_of_seeds.Storage.Accounting.{usage_row, lock_storage_ledger}
use world_of_seeds.Storage.Reconcile.{logical_bytes_of, managed_bytes_of}
use world_of_seeds.Lifecycle.Rows.{Store}
use world_of_seeds.Lifecycle.Visibility.{
  is_ranked_queue_member, user_active_status_changes_ranked_queue, with_active,
}
use world_of_seeds.Lifecycle.Rights.{cancel_owned_torrent_request, expire_ready_torrents_batch}
use world_of_seeds.Lifecycle.Ranks.{differ, status_change_exact}
use world_of_seeds.Lifecycle.Balance.{IsSound}
use world_of_seeds.Lifecycle.Cancellation.{cancel-IsSound}
use world_of_seeds.Lifecycle.Expiration.{expire-IsSound}
use world_of_seeds.Lifecycle.Sums.{distinct_torrents}
use world_of_seeds.Lifecycle.Requests.{RequestInput, create_or_get_torrent_request}
use world_of_seeds.Lifecycle.Admission.{create-IsSound}
use world_of_seeds.Lifecycle.Races.{IsNoRace, create-IsNoRace}
use world_of_seeds.Lifecycle.Purges.{SchedulesAny, cancel-Schedules}

abbrev torrent : ManagedTorrent
torrent = record {
  id = 7;
  info_hash = "a1";
  storage_key = 70;
  name = "seeds";
  total_size = 300;
  state = ManagedTorrentState.paused;
  qb_state = none;
  progress = 0;
  retry_at = none;
  last_downloaded_bytes = none;
  scheduler_retry_at = none;
  purge_after = none;
  ready_at = none;
  retention_expires_at = none;
  purge_stop_pending = false;
  lifecycle_generation = 0;
  desired_active = false;
  admin_forced_active = false;
  created_at = 0;
  updated_at = 0;
}

abbrev request : TorrentRequest
request = record {
  id = 9;
  user_id = 1;
  managed_torrent_id = 7;
  state = TorrentRequestState.ready;
  ready_at = some 2;
  unsubscribe_at = some 4;
  cancelled_at = none;
  expires_at = none;
  created_at = 0;
  updated_at = 0;
}

abbrev pending_request : TorrentRequest
pending_request = record request {
  state = TorrentRequestState.active;
  ready_at = none;
  unsubscribe_at = none;
}

abbrev with_request : TorrentRequest → Store
with_request r = record {
  tables = record {
    users = record { id = 1; is_active = true; deleted_at = none } ∷ [];
    torrents = torrent ∷ [];
    requests = r ∷ [];
    usages = (1, record { user_id = 1; logical_bytes = 300; updated_at = 0 }) ∷ [];
    ledger = some (record {
      managed_bytes = 300;
      disk_total_bytes = 1000;
      disk_free_bytes = 700;
      pressure = normal;
      updated_at = 0;
    });
  };
  jobs = [];
}

abbrev store : Store
store = with_request request

store-IsSound : IsSound store.tables
unfolding usage_row lock_storage_ledger logical_bytes_of managed_bytes_of get_or
store-IsSound = record {
  balanced = record { users = λ v. ground arith; content = refl };
  distinct = refl;
}

cancel-IsSound_example :
    OnOk (λ r. IsSound r.0.tables) (cancel_owned_torrent_request 50 5 5 1 9 48 true store)
cancel-IsSound_example = cancel-IsSound 50 5 5 48 true store 1 9 store-IsSound refl

cancel-Schedules_example :
    OnOk (SchedulesAny store 5 48) (cancel_owned_torrent_request 50 5 5 1 9 48 true store)
cancel-Schedules_example = cancel-Schedules 50 5 5 48 true store 1 9

expire-IsSound_example :
    OnOk
      (λ r. IsSound r.0.tables)
      (expire_ready_torrents_batch (λ i. i + 50) 5 (λ i. false) 5 48 200 store)
expire-IsSound_example =
    expire-IsSound (λ i. i + 50) 5 (λ i. false) 5 48 200 store store-IsSound refl

abbrev waiting_tables : Tables
waiting_tables = (with_request pending_request).tables

status_change_exact_example :
    user_active_status_changes_ranked_queue waiting_tables 1 5
    ≡ any
        (λ t.
          differ
            (is_ranked_queue_member (with_active 1 true waiting_tables) t 5)
            (is_ranked_queue_member (with_active 1 false waiting_tables) t 5))
        waiting_tables.torrents
status_change_exact_example = status_change_exact waiting_tables 1 5 refl

abbrev input : RequestInput
input = record {
  user_id = 1;
  info_hash = "0123456789abcdef0123456789abcdef01234567";
  name = "plants";
  total_size = 200;
  now = 5;
  storage_policy = none;
  disk_snapshot = none;
  auto_unsubscribe_hours = 48;
  managed_id = 8;
  storage_key = 80;
  request_id = 10;
  touched = 6;
}

create-IsSound_example :
    OnOk
      (λ r. IsSound r.0.tables × (distinct_torrents r.0.tables.torrents ≡ true))
      (create_or_get_torrent_request input store)
create-IsSound_example = create-IsSound input store store-IsSound refl refl

create-IsNoRace_example : OnErr IsNoRace (create_or_get_torrent_request input store)
create-IsNoRace_example = create-IsNoRace input store refl refl
