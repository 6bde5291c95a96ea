-- ===== src/Lifecycle/Admission.antt =====
-- backend/app/torrents/deduplication.py: a request keeps the counters of
-- backend/app/storage/accounting.py in agreement with the sums.
use world_of_seeds.Prelude.{
  ℕ, ◌+◌, String, ◌≡◌, refl, sym, ap, subst, ◌∙◌, inl, inr, Bool, true, false, not, ◌&&◌, ◌||◌,
  Option, none, some, List, [], ◌∷◌, arith, str_eq, eq_iff, ◌==◌, if◌then◌else◌, between, ==_refl,
  Bool-cases, all, mem_of_mem-where_rows, guard, OnOk, OnOk-bind, OnOk-guard, OnOk-check, OnOk-imp,
}
use mathlib.Core.List.{Memᴰ}
use world_of_seeds.Models.{Uuid, ManagedTorrent, TorrentRequest}
use world_of_seeds.Jobs.Queue.{Jobs}
use world_of_seeds.Storage.{Tables}
use world_of_seeds.Storage.Accounting.{find_torrent, is_purged}
use world_of_seeds.Lifecycle.Rows.{Store, update_torrent}
use world_of_seeds.Lifecycle.Visibility.{is_active_user}
use world_of_seeds.Lifecycle.Sums.{distinct_torrents}
use world_of_seeds.Lifecycle.Balance.{IsSound}
use world_of_seeds.Lifecycle.Cancellation.{head-mem}
use world_of_seeds.Lifecycle.Requests.{
  DeduplicationError, metadata_conflict, bad_unsubscribe_hours, owner_missing, torrent_race,
  RequestInput, validate_metadata, new_torrent, insert_managed_torrent, revived, expire_due,
  torrent_conflicts, found_or, grant, admit_request, create_or_get_torrent_request,
}
use world_of_seeds.Lifecycle.Debts.{Lacks, if_same, charge, update-Lacks, insert-Lacks}
use world_of_seeds.Lifecycle.Grants.{
  expire_due-Lacks, expire_due-torrents, grant-Lacks, revived-charge,
}

mem-update :
    (u : ManagedTorrent) (ts : List ManagedTorrent) {t : ManagedTorrent}
    → Memᴰ t ts
    → Memᴰ u (update_torrent t.id (λ _. u) ts)
unfolding update_torrent
mem-update u [] m = elim m [ ]
mem-update u (x ∷ ts) {t} (Memᴰ.head e) =
    subst (λ (z : ManagedTorrent). Memᴰ u (update_torrent z.id (λ _. u) (x ∷ ts))) (sym e)
      (rw (==_refl x.id) (Memᴰ.head refl))
mem-update u (x ∷ ts) {t} (Memᴰ.tail m) = Memᴰ.tail (mem-update u ts {t = t} m)

owed_after :
    (created purged : Bool) (n : ℕ) {size before after : ℕ}
    → size ≡ n
    → (created ≡ true → purged ≡ false)
    → before ≡ (if purged then 0 else size)
    → after ≡ size
    → (if created || purged then n else 0) + before ≡ (if created then n else 0) + after
owed_after true true n e h i j = absurd (cc (h refl))
owed_after true false n e h i j = omega (arith, e, i, j)
owed_after false true n e h i j = omega (arith, e, i, j)
owed_after false false n e h i j = omega (arith, e, i, j)

admit_request-Lacks :
    (i : RequestInput) (created : Bool) (t : ManagedTorrent) (db : Tables) (jobs : Jobs)
    → Memᴰ t db.torrents
    → (created ≡ true → is_purged t.state ≡ false)
    → Lacks i.user_id 0 (if created then i.total_size else 0) db
    → OnOk (λ r. Lacks i.user_id 0 0 r.0.tables) (admit_request i created t db jobs)
unfolding admit_request
admit_request-Lacks i created t db jobs m new h =
    OnOk-guard (λ r. Lacks i.user_id 0 0 r.0.tables)
      (str_eq t.name i.name && t.total_size == i.total_size) metadata_conflict _
      (λ agrees.
        let size : t.total_size ≡ i.total_size = ground (arith, agrees) in
        let missing = created || is_purged t.state in
        OnOk-bind
          (λ (r : ManagedTorrent × Bool).
            (r.0.id ≡ t.id) × (r.0.total_size ≡ t.total_size) × (charge r.0 ≡ t.total_size))
          (λ r. Lacks i.user_id 0 0 r.0.tables) (revived i.now t) _ (revived-charge i.now t)
          (λ (u, called_off) (same, sized, charged).
            let changed = record db { torrents = update_torrent t.id (λ _. u) db.torrents } in
            let lacks =
              update-Lacks i.user_id (if created then i.total_size else 0)
                (if missing then i.total_size else 0) db t u m same sized
                (owed_after created (is_purged t.state) i.total_size size new refl charged) h in
            let known = mem-update u db.torrents {t = t} m in
            let before =
              expire_due-Lacks i u (if missing then i.total_size else 0) changed known lacks in
            let still = subst (Memᴰ u) (sym (expire_due-torrents i u changed)) known in
            OnOk-bind (λ r. Lacks i.user_id 0 0 r.0) (λ r. Lacks i.user_id 0 0 r.0.tables)
              (grant i u missing (expire_due i u changed)) _
              (grant-Lacks i u missing (expire_due i u changed) still (sized ∙ size) before)
              (λ (granted, request_created, r, pressure) paid_up. paid_up)))

fresh_id :
    (i : RequestInput) (ts : List ManagedTorrent)
    → torrent_conflicts i ts ≡ false
    → all (λ (t : ManagedTorrent). not (t.id == i.managed_id)) ts ≡ true
unfolding torrent_conflicts
fresh_id i [] h = refl
fresh_id i (t ∷ ts) h = ground (arith, fresh_id i ts)

find_torrent-mem :
    (ts : List ManagedTorrent) (info_hash : String) {t : ManagedTorrent}
    → find_torrent ts info_hash ≡ some t
    → Memᴰ t ts
unfolding find_torrent
find_torrent-mem ts info_hash h =
    (mem_of_mem-where_rows (λ t. str_eq t.info_hash info_hash) ts (head-mem _ h)).0

pub find_torrent-new :
    (i : RequestInput) (ts : List ManagedTorrent)
    → find_torrent (new_torrent i ∷ ts) i.info_hash ≡ some (new_torrent i)
unfolding find_torrent
find_torrent-new i ts = rw ((eq_iff i.info_hash i.info_hash).1 refl) refl

found_or-OnOk {ℓ} :
    {A : Type ℓ} (e : DeduplicationError) (o : Option A) → OnOk (λ a. o ≡ some a) (found_or e o)
found_or-OnOk e none = tt
found_or-OnOk e (some a) = refl

IsSound-Lacks :
    (user : Uuid) (db : Tables)
    → IsSound db
    → distinct_torrents db.torrents ≡ true
    → Lacks user 0 0 db
IsSound-Lacks user db sound h = record {
  users = λ v. omega (arith, if_same (user == v) 0, sound.balanced.users v);
  content = omega (arith, sound.balanced.content);
  distinct = sound.distinct;
  torrents = h;
}

Lacks-IsSound :
    (user : Uuid) (db : Tables)
    → Lacks user 0 0 db
    → IsSound db × (distinct_torrents db.torrents ≡ true)
Lacks-IsSound user db h = (
  record {
    balanced = record {
      users = λ v. omega (arith, if_same (user == v) 0, h.users v);
      content = omega (arith, h.content);
    };
    distinct = h.distinct;
  },
  h.torrents,
)

-- From the upsert of the torrent on.
upserted-Lacks :
    (i : RequestInput) (s : Store)
    → all (λ (r : TorrentRequest). not (r.managed_torrent_id == i.managed_id)) s.tables.requests
      ≡ true
    → Lacks i.user_id 0 0 s.tables
    → (t : ManagedTorrent)
    → find_torrent (insert_managed_torrent i s.tables).0.torrents i.info_hash ≡ some t
    → OnOk
        (λ r. Lacks i.user_id 0 0 r.0.tables)
        (admit_request i
          (insert_managed_torrent i s.tables).1
          t
          (insert_managed_torrent i s.tables).0
          s.jobs)
unfolding insert_managed_torrent
upserted-Lacks i s unknown h t found = elim (Bool-cases (torrent_conflicts i s.tables.torrents)) [
  | inl taken ↦
      let inserted : insert_managed_torrent i s.tables ≡ (s.tables, false) = rw taken refl in
      let known = find_torrent-mem s.tables.torrents i.info_hash (
        ap (λ (x : Tables × Bool). find_torrent x.0.torrents i.info_hash) (sym inserted) ∙ found) in
      subst
        (λ (x : Tables × Bool).
          OnOk (λ r. Lacks i.user_id 0 0 r.0.tables) (admit_request i x.1 t x.0 s.jobs))
        (sym inserted) (admit_request-Lacks i false t s.tables s.jobs known (λ e. cc e) h)
  | inr free ↦
      let db = record s.tables { torrents = new_torrent i ∷ s.tables.torrents } in
      let inserted : insert_managed_torrent i s.tables ≡ (db, true) = rw free refl in
      let same : new_torrent i ≡ t = some_eq (
        sym (find_torrent-new i s.tables.torrents)
        ∙ ap (λ (x : Tables × Bool). find_torrent x.0.torrents i.info_hash) (sym inserted)
        ∙ found) in
      let first =
        insert-Lacks i.user_id s.tables (new_torrent i) (fresh_id i s.tables.torrents free) unknown
          h in
      let admitted =
        admit_request-Lacks i true (new_torrent i) db s.jobs (Memᴰ.head refl) (λ e. refl) first in
      subst
        (λ (x : Tables × Bool).
          OnOk (λ r. Lacks i.user_id 0 0 r.0.tables) (admit_request i x.1 t x.0 s.jobs))
        (sym inserted)
        (subst
          (λ (y : ManagedTorrent).
            OnOk (λ r. Lacks i.user_id 0 0 r.0.tables) (admit_request i true y db s.jobs))
          same admitted)
]
  where
    some_eq : {a b : ManagedTorrent} → some a ≡ some b → a ≡ b
    some_eq h = cc h

-- Where the counters agree with the sums over the rights, no two requests and no two torrents have one
-- identifier, and no request refers to the identifier that a new torrent would get: after a user's request
-- that succeeds the counters agree with the sums, and no two requests and no two torrents have one
-- identifier. The torrent may be new, known, one whose purge is called off or one whose content was purged,
-- and the right new, there already or just expired.
pub create-IsSound :
    (i : RequestInput) (s : Store)
    → IsSound s.tables
    → distinct_torrents s.tables.torrents ≡ true
    → all (λ (r : TorrentRequest). not (r.managed_torrent_id == i.managed_id)) s.tables.requests
      ≡ true
    → OnOk
        (λ r. IsSound r.0.tables × (distinct_torrents r.0.tables.torrents ≡ true))
        (create_or_get_torrent_request i s)
unfolding create_or_get_torrent_request
create-IsSound i s sound h unknown =
    let lacks = IsSound-Lacks i.user_id s.tables sound h in
    OnOk-check _ (validate_metadata i) _ (λ valid.
      OnOk-check _ (guard (between 1 2160 i.auto_unsubscribe_hours) bad_unsubscribe_hours) _
        (λ hours_valid.
          OnOk-check _ (guard (is_active_user s.tables.users i.user_id) owner_missing) _ (λ there.
            OnOk-bind _ _
              (found_or torrent_race
                (find_torrent (insert_managed_torrent i s.tables).0.torrents i.info_hash))
              _
              (found_or-OnOk torrent_race
                (find_torrent (insert_managed_torrent i s.tables).0.torrents i.info_hash))
              (λ t found.
                OnOk-imp _ _
                  (admit_request i (insert_managed_torrent i s.tables).1 t
                    (insert_managed_torrent i s.tables).0 s.jobs)
                  (λ r paid_up. Lacks-IsSound i.user_id r.0.tables paid_up)
                  (upserted-Lacks i s unknown lacks t found)))))
