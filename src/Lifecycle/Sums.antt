-- ===== src/Lifecycle/Sums.antt =====
-- backend/app/torrents/lifecycle.py and backend/app/storage/accounting.py: what the end of a right does to
-- the sums that a reconciliation takes.
use world_of_seeds.Prelude.{
  ℕ, ◌+◌, ◌≡◌, refl, sym, ap, subst, ◌∙◌, Bool, true, false, not, ◌&&◌, List, [], ◌∷◌, arith, ◌==◌,
  if◌then◌else◌, ==_refl, all,
}
use mathlib.Core.List.{Memᴰ}
use world_of_seeds.Models.{Uuid, ManagedTorrent, TorrentRequest, is_active_state}
use world_of_seeds.Storage.Reconcile.{logical_bytes_of, joined_size}
use world_of_seeds.Lifecycle.Rows.{update_request}

-- No two rows have one identifier.
abbrev pub all_distinct {ℓ} : {A : Type ℓ} → (A → ℕ) → List A → Bool
all_distinct key [] = true
all_distinct key (x ∷ xs) = all (λ y. not (key y == key x)) xs && all_distinct key xs

abbrev pub distinct_requests : List TorrentRequest → Bool
distinct_requests rs = all_distinct (λ (r : TorrentRequest). r.id) rs

abbrev pub distinct_torrents : List ManagedTorrent → Bool
distinct_torrents ts = all_distinct (λ (t : ManagedTorrent). t.id) ts

-- What a request counts for a user.
abbrev pub share : List ManagedTorrent → Uuid → TorrentRequest → ℕ
share ts v r =
    if r.user_id == v && is_active_state r.state then joined_size ts r.managed_torrent_id else 0

pub other_key {ℓ} :
    {A : Type ℓ} (key : A → ℕ) (i : ℕ) (xs : List A) {x : A}
    → all (λ y. not (key y == i)) xs ≡ true
    → Memᴰ x xs
    → (key x == i) ≡ false
other_key key i [] h m = elim m [ ]
other_key key i (y ∷ xs) h (Memᴰ.head e) = ground (arith, ap (λ z. key z == i) e, h)
other_key key i (y ∷ xs) h (Memᴰ.tail m) = other_key key i xs (ground (arith, h)) m

module _ (i : Uuid) (f : TorrentRequest → TorrentRequest) where
  update_request_same :
      (rs : List TorrentRequest)
      → all (λ (r : TorrentRequest). not (r.id == i)) rs ≡ true
      → update_request i f rs ≡ rs
  unfolding update_request
  update_request_same [] h = refl
  update_request_same (r ∷ rs) h = ground (arith, update_request_same rs, h)

  pub mem-update_request :
      (rs : List TorrentRequest) {r : TorrentRequest}
      → (r.id == i) ≡ false
      → Memᴰ r rs
      → Memᴰ r (update_request i f rs)
  unfolding update_request
  mem-update_request [] h m = elim m [ ]
  mem-update_request (x ∷ rs) {r} h (Memᴰ.head e) =
      let other : (x.id == i) ≡ false = ap (λ (z : TorrentRequest). z.id == i) (sym e) ∙ h in
      Memᴰ.head (rw other e)
  mem-update_request (x ∷ rs) h (Memᴰ.tail m) = Memᴰ.tail (mem-update_request rs h m)

  pub all_ids-update_request :
      (rs : List TorrentRequest) (j : Uuid)
      → ((r : TorrentRequest) → (f r).id ≡ r.id)
      → all (λ (r : TorrentRequest). not (r.id == j)) (update_request i f rs)
        ≡ all (λ (r : TorrentRequest). not (r.id == j)) rs
  unfolding update_request
  all_ids-update_request [] j h = refl
  all_ids-update_request (r ∷ rs) j h = ground (arith, all_ids-update_request rs j h, h r)

  pub distinct-update_request :
      (rs : List TorrentRequest)
      → ((r : TorrentRequest) → (f r).id ≡ r.id)
      → distinct_requests (update_request i f rs) ≡ distinct_requests rs
  unfolding update_request
  distinct-update_request [] h = refl
  distinct-update_request (r ∷ rs) h =
      ground (arith, distinct-update_request rs h, h r, all_ids-update_request rs r.id h)

-- The share of the row that ends leaves the sum, and no other does.
pub logical_bytes_of-end :
    (ts : List ManagedTorrent) (f : TorrentRequest → TorrentRequest) (v : Uuid)
    (rs : List TorrentRequest) {r : TorrentRequest}
    → ((x : TorrentRequest) → is_active_state (f x).state ≡ false)
    → distinct_requests rs ≡ true
    → Memᴰ r rs
    → logical_bytes_of ts rs v ≡ share ts v r + logical_bytes_of ts (update_request r.id f rs) v
unfolding logical_bytes_of update_request
logical_bytes_of-end ts f v [] ended h m = elim m [ ]
logical_bytes_of-end ts f v (x ∷ rs) {r} ended h (Memᴰ.head e) =
    subst
      (λ (z : TorrentRequest).
        logical_bytes_of ts (x ∷ rs) v
        ≡ share ts v z + logical_bytes_of ts (update_request z.id f (x ∷ rs)) v)
      (sym e)
      (rw (==_refl x.id, update_request_same x.id f rs (ground (arith, h)))
        (ground (arith, ended x)))
logical_bytes_of-end ts f v (x ∷ rs) {r} ended h (Memᴰ.tail m) =
    let other = other_key (λ (y : TorrentRequest). y.id) x.id rs (ground (arith, h)) m in
    ground (arith, other, logical_bytes_of-end ts f v rs ended (ground (arith, h)) m)
