-- ===== src/Ipsc/PeerTable/Listing.antt =====
-- ipsc/protocol.py, `_on_peer_list_reply`: which peers the table has after a list.
use ipsc2hbp.Base.{
  ℕ, ◌≡◌, refl, sym, ap, ◌∙◌, Bool, true, false, ◌&&◌, ◌||◌, Option, none, some, List, [], ◌∷◌,
  arith, not, is_some, nat_eqb, nat_eqb_iff, if◌then◌else◌, nat_eq, lookup, insert, lookup-insert,
  lookup-insert_self, Bool-cases, Option-cases, inl, inr,
}
use ipsc2hbp.Dmr.{Bytes}
use ipsc2hbp.Ipsc.PeerTable.{
  PeerEntry, Peers, Listed, entries, is_skipped, listed_entry, merge, merge_entry, is_seen,
  prune_peers, apply_list,
}

nat_eqb_refl : (n : ℕ) → nat_eqb n n ≡ true
nat_eqb_refl n = (nat_eqb_iff n n).1 refl

module _ (local_id master_id : ℕ) where
  -- The last entry of the list for a peer, if the list has one that is not skipped.
  unfoldable pub latest : ℕ → List Listed → Option Listed
  latest k [] = none
  latest k (l ∷ ls) = elim (latest k ls) [
    | none ↦ if nat_eqb l.peer_id k && not (is_skipped local_id master_id k) then some l else none
    | some m ↦ some m
  ]

  -- The entry of a peer that the table may have had, after the list.
  abbrev pub relisted : Option Listed → Option PeerEntry → Option PeerEntry
  relisted none o = o
  relisted (some l) o = some (listed_entry l o)

  listed_twice :
      (l m : Listed) (o : Option PeerEntry)
      → l.peer_id ≡ m.peer_id
      → listed_entry m (some (listed_entry l o)) ≡ listed_entry m o
  unfolding listed_entry
  listed_twice l m none e = ground (arith, e)
  listed_twice l m (some x) e = refl

  latest-peer_id : (k : ℕ) (ls : List Listed) (l : Listed) → latest k ls ≡ some l → l.peer_id ≡ k
  unfolding latest
  latest-peer_id k [] l h = cc
  latest-peer_id k (x ∷ ls) l h = ground (arith, latest-peer_id k ls l)

  -- One entry more, before a list that has none for the peer, and before one that has.
  relisted-none :
      (l : Listed) (k : ℕ) (peers : Peers)
      → is_skipped local_id master_id l.peer_id ≡ false
      → lookup k (insert l.peer_id (listed_entry l (lookup l.peer_id peers)) peers)
        ≡ relisted
            (if nat_eqb l.peer_id k && not (is_skipped local_id master_id k) then some l else none)
            (lookup k peers)
  relisted-none l k peers h = elim (Bool-cases (nat_eqb l.peer_id k)) [
    | inl e ↦
        let e' : k ≡ l.peer_id = sym ((nat_eqb_iff l.peer_id k).0 e) in
        let i = lookup-insert_self l.peer_id (listed_entry l (lookup l.peer_id peers)) peers in
        rw (e', h, nat_eqb_refl l.peer_id) i
    | inr e ↦
        ground (arith, lookup-insert l.peer_id k (listed_entry l (lookup l.peer_id peers)) peers)
  ]

  relisted-some :
      (l m : Listed) (k : ℕ) (peers : Peers)
      → m.peer_id ≡ k
      → relisted
          (some m)
          (lookup k (insert l.peer_id (listed_entry l (lookup l.peer_id peers)) peers))
        ≡ relisted (some m) (lookup k peers)
  relisted-some l m k peers h = elim (Bool-cases (nat_eqb l.peer_id k)) [
    | inl e ↦
        let e' : k ≡ l.peer_id = sym ((nat_eqb_iff l.peer_id k).0 e) in
        let i = lookup-insert_self l.peer_id (listed_entry l (lookup l.peer_id peers)) peers in
        rw (e', i) (ap some (listed_twice l m (lookup l.peer_id peers) (omega arith)))
    | inr e ↦
        ground (arith, lookup-insert l.peer_id k (listed_entry l (lookup l.peer_id peers)) peers)
  ]

  merge_entry-none :
      (k : ℕ) (l : Listed) (s : Peers × List ℕ)
      → lookup k (merge_entry local_id master_id l s).0
        ≡ relisted
            (if nat_eqb l.peer_id k && not (is_skipped local_id master_id k) then some l else none)
            (lookup k s.0)
  unfolding merge_entry is_skipped
  merge_entry-none k l (peers, seen) =
      let not_skipped = relisted-none l k peers in ground (arith, not_skipped)

  merge_entry-some :
      (k : ℕ) (l m : Listed) (s : Peers × List ℕ)
      → m.peer_id ≡ k
      → relisted (some m) (lookup k (merge_entry local_id master_id l s).0)
        ≡ relisted (some m) (lookup k s.0)
  unfolding merge_entry
  merge_entry-some k l m (peers, seen) h =
      let not_skipped = relisted-some l m k peers h in ground (arith, not_skipped)

  -- Before the pruning, a peer that it lists has the address and the mode of its
  -- last entry, and what the table knew of it besides; any other has what the table had.
  merge-lookup :
      (k : ℕ) (ls : List Listed) (s : Peers × List ℕ)
      → lookup k (merge local_id master_id ls s).0 ≡ relisted (latest k ls) (lookup k s.0)
  unfolding merge latest
  merge-lookup k [] s = refl
  merge-lookup k (l ∷ ls) s =
      let rest = merge-lookup k ls (merge_entry local_id master_id l s) in
      elim (Option-cases (latest k ls)) [
        | inl e ↦ rw e (rest ∙ rw e (merge_entry-none k l s))
        | inr (m, e) ↦ rw e (rest ∙ rw e (merge_entry-some k l m s (latest-peer_id k ls m e)))
      ]

  merge_entry-seen :
      (k : ℕ) (l : Listed) (s : Peers × List ℕ)
      → is_seen k (merge_entry local_id master_id l s).1
        ≡ (nat_eqb l.peer_id k && not (is_skipped local_id master_id k)) || is_seen k s.1
  unfolding merge_entry is_seen is_skipped
  merge_entry-seen k l (peers, seen) = ground arith

  merge-seen :
      (k : ℕ) (ls : List Listed) (s : Peers × List ℕ)
      → is_seen k (merge local_id master_id ls s).1 ≡ is_some (latest k ls) || is_seen k s.1
  unfolding merge latest
  merge-seen k [] s = refl
  merge-seen k (l ∷ ls) s =
      ground (arith, merge-seen k ls (merge_entry local_id master_id l s), merge_entry-seen k l s)

prune_peers-kept :
    (seen : List ℕ) (k : ℕ) (d : Peers) (e : PeerEntry)
    → lookup k d ≡ some e
    → (e.from_peer_list && not (is_seen k seen)) ≡ false
    → lookup k (prune_peers seen d) ≡ some e
unfolding lookup prune_peers
prune_peers-kept seen k [] e h g = cc
prune_peers-kept seen k ((j, x) ∷ d) e h g = ground (arith, prune_peers-kept seen k d e)

-- A table has one entry for a key, as a dictionary has.
abbrev pub Unique : Peers → Type 0
Unique [] = Unit
Unique ((k, e) ∷ d) = (lookup k d ≡ none) × Unique d

insert-Unique : (k : ℕ) (e : PeerEntry) (d : Peers) → Unique d → Unique (insert k e d)
unfolding lookup insert
insert-Unique k e [] u = (refl, tt)
insert-Unique k e ((j, x) ∷ d) (n, u) = elim (Bool-cases (nat_eqb j k)) [
  | inl same ↦ rw same (n, u)
  | inr other ↦
      let missing : lookup j (insert k e d) ≡ none =
        ground (arith, lookup-insert k j e d, nat_eqb_iff j k, nat_eqb_iff k j) in
      rw other (missing, insert-Unique k e d u)
]

merge_entry-Unique :
    (local_id master_id : ℕ) (l : Listed) (s : Peers × List ℕ)
    → Unique s.0
    → Unique (merge_entry local_id master_id l s).0
unfolding merge_entry
merge_entry-Unique local_id master_id l (peers, seen) u =
    let added = insert-Unique l.peer_id (listed_entry l (lookup l.peer_id peers)) peers u in
    elim (Bool-cases (is_skipped local_id master_id l.peer_id)) [
      | inl skipped ↦ rw skipped u
      | inr taken ↦ rw taken added
    ]

merge-Unique :
    (local_id master_id : ℕ) (ls : List Listed) (s : Peers × List ℕ)
    → Unique s.0
    → Unique (merge local_id master_id ls s).0
unfolding merge
merge-Unique local_id master_id [] s u = u
merge-Unique local_id master_id (l ∷ ls) s u =
    merge-Unique local_id master_id ls (merge_entry local_id master_id l s)
      (merge_entry-Unique local_id master_id l s u)

prune_peers-none :
    (seen : List ℕ) (k : ℕ) (d : Peers) → lookup k d ≡ none → lookup k (prune_peers seen d) ≡ none
unfolding lookup prune_peers
prune_peers-none seen k [] h = refl
prune_peers-none seen k ((j, x) ∷ d) h = ground (arith, prune_peers-none seen k d)

prune_peers-gone :
    (seen : List ℕ) (k : ℕ) (d : Peers) (e : PeerEntry)
    → Unique d
    → lookup k d ≡ some e
    → (e.from_peer_list && not (is_seen k seen)) ≡ true
    → lookup k (prune_peers seen d) ≡ none
unfolding lookup prune_peers
prune_peers-gone seen k [] e u h g = refl
prune_peers-gone seen k ((j, x) ∷ d) e (n, u) h g = ground (
  arith,
  nat_eqb_iff j k,
  prune_peers-none seen j d,
  n,
  prune_peers-none seen k d,
  prune_peers-gone seen k d e u,
)

module _ (prunes : Bool) (local_id master_id : ℕ) (payload : Bytes) (peers : Peers) (k : ℕ) where
  abbrev after_list : Option PeerEntry
  after_list = lookup k (apply_list prunes local_id master_id payload peers)

  -- The last entry of the reply for the peer.
  abbrev pub listed : Option Listed
  listed = latest local_id master_id k (entries payload)

  -- In a table with one entry for a key, a peer that the list does not hold is removed if the
  -- pruning is on and it came with a list, and else stays as it is.
  pub apply_list-unlisted :
      (e : PeerEntry)
      → Unique peers
      → listed ≡ none
      → lookup k peers ≡ some e
      → after_list ≡ (if prunes && e.from_peer_list then none else some e)
  unfolding apply_list is_seen
  apply_list-unlisted e u h o =
      let m = merge-lookup local_id master_id k (entries payload) (peers, []) in
      let seen = merge-seen local_id master_id k (entries payload) (peers, []) in
      let single = merge-Unique local_id master_id (entries payload) (peers, []) u in
      let (merged, names) = merge local_id master_id (entries payload) (peers, []) in
      let kept = prune_peers-kept names k merged e in
      let gone = prune_peers-gone names k merged e single in ground (arith, m, seen, kept, gone)
