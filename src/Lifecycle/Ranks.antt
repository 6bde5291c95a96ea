-- ===== src/Lifecycle/Ranks.antt =====
-- backend/app/scheduler/queue_visibility.py: which changes of an owner the waiting queue shows.
use world_of_seeds.Prelude.{
  ◌≡◌, refl, Bool, true, false, not, ◌&&◌, ◌||◌, List, [], ◌∷◌, arith, any,
}
use world_of_seeds.Models.{Uuid, Instant, ManagedTorrent, TorrentRequest}
use world_of_seeds.Storage.{Tables}
use world_of_seeds.Lifecycle.Visibility.{
  has_active_owner, is_ranked_queue_member, has_other_owner, is_owner,
  user_active_status_changes_ranked_queue, with_active, is_known, is_active_user-set_active,
}

any_same {ℓ} :
    {A : Type ℓ} (p q : A → Bool) (xs : List A) → ((x : A) → p x ≡ q x) → any p xs ≡ any q xs
any_same p q [] h = refl
any_same p q (x ∷ xs) h = ground (arith, any_same p q xs h, h x)

-- The owners of a torrent, with the user set apart.
owner_parts :
    (db : Tables) (user : Uuid) (b : Bool) (t : ManagedTorrent) (rs : List TorrentRequest)
    → is_known db.users user ≡ true
    → has_active_owner (record (with_active user b db) { requests = rs }) t ≡ (
        b && is_owner (record db { requests = rs }) user t
        || has_other_owner (record db { requests = rs }) user t)
unfolding has_active_owner is_owner has_other_owner
owner_parts db user b t [] h = ground arith
owner_parts db user b t (r ∷ rs) h =
    ground
      (arith, owner_parts db user b t rs h, is_active_user-set_active user b db.users r.user_id)

abbrev pub differ : Bool → Bool → Bool
differ a b = a && not b || not a && b

-- For a user that is there and not deleted, the test is true exactly where some torrent is ranked with
-- the user active and not ranked with the user inactive, or the other way round.
pub status_change_exact :
    (db : Tables) (user : Uuid) (now : Instant)
    → is_known db.users user ≡ true
    → user_active_status_changes_ranked_queue db user now
      ≡ any
          (λ t.
            differ
              (is_ranked_queue_member (with_active user true db) t now)
              (is_ranked_queue_member (with_active user false db) t now))
          db.torrents
unfolding user_active_status_changes_ranked_queue is_ranked_queue_member
status_change_exact db user now h = any_same _ _ db.torrents (λ t.
    ground
      (arith, owner_parts db user true t db.requests h, owner_parts db user false t db.requests h))
