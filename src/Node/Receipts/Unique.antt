-- ===== src/Node/Receipts/Unique.antt =====
-- No two stored receipts claim the same event.
use entangrid.Prelude.{
  ℕ, List, [], ◌∷◌, ◌++◌, Bool, true, false, ◌≡◌, refl, inl, inr, arith, map, ◌==◌, ==_iff, ap,
  Bool-cases, if◌then◌else◌, ◌∙◌,
}
use entangrid.BTree.Key.{nat_key}
use entangrid.BTree.Set
use entangrid.BTree.Set.{BTreeSet, contains}
use entangrid.BTree.Set.Laws.{contains-insert_self, contains-insert}
use entangrid.Quorum.{IsNodup}
use entangrid.Types.Records.{RelayReceipt, Block}
use entangrid.Types.Encoding.{Crypto}
use entangrid.Node.Receipts.{
  ReceiptBook, receipt_hash, receipt_event_hash, persist_receipt, import_commitment_receipts,
  collect, rebuild_seen_receipts, import_chain_receipts,
}

contains-cons :
    (x : ℕ) (xs : List ℕ) (k : ℕ) → contains (x ∷ xs) k ≡ (if k == x then true else contains xs k)
unfolding contains
contains-cons x xs k = ground arith

-- The elements are distinct, and none of them is in the set.
pub record IsFresh (set : BTreeSet ℕ) (xs : List ℕ) : Type 0 where
  pub distinct : IsNodup xs
  pub fresh : (x : ℕ) → contains set x ≡ true → contains xs x ≡ false

pub IsFresh-cons :
    (set : BTreeSet ℕ) (x : ℕ) (xs : List ℕ)
    → contains set x ≡ false
    → IsFresh (Set.insert set x) xs
    → IsFresh set (x ∷ xs)
IsFresh-cons set x xs new later = record {
  distinct = (later.fresh x (contains-insert_self set x), later.distinct);
  fresh = λ y h. elim (Bool-cases (y == x)) [
    | inl same ↦
        let e : y ≡ x = (==_iff y x).0 same in
        absurd (ground (arith, h, new, ap (λ z. contains set z) e))
    | inr other ↦ ground (arith, h, later.fresh y, contains-insert set x y, contains-cons x xs y)
  ];
}

nested :
    (a b c : Bool)
    → (if a then true else (if b then true else c)) ≡ (if (if b then true else a) then true else c)
nested a b c = ground arith

swap :
    (a b c : Bool)
    → (if a then true else (if b then true else c)) ≡ (if b then true else (if a then true else c))
swap a b c = ground arith

-- An element at the end.
contains-snoc :
    (xs : List ℕ) (x k : ℕ) → contains (xs ++ x ∷ []) k ≡ (if k == x then true else contains xs k)
contains-snoc [] x k = contains-cons x [] k
contains-snoc (y ∷ xs) x k =
    rw (contains-cons y (xs ++ x ∷ []) k, contains-cons y xs k, contains-snoc xs x k)
      (swap (k == y) (k == x) (contains xs k))

IsNodup-snoc : (xs : List ℕ) (x : ℕ) → IsNodup xs → contains xs x ≡ false → IsNodup (xs ++ x ∷ [])
IsNodup-snoc [] x h k = (k, tt)
IsNodup-snoc (y ∷ xs) x (fresh, distinct) k =
    let other : contains xs x ≡ false = ground (arith, contains-cons y xs x) in
    (
      ground (arith, fresh, k, contains-cons y xs x, contains-snoc xs x y, ==_iff y x, ==_iff x y),
      IsNodup-snoc xs x distinct other,
    )

map_append {ℓ κ} :
    {A : Type ℓ} {B : Type κ} (g : A → B) (xs ys : List A) → map g (xs ++ ys) ≡ map g xs ++ map g ys
map_append g [] ys = refl
map_append g (x ∷ xs) ys = ap (λ zs. g x ∷ zs) (map_append g xs ys)

no_more : (b : Bool) → (if b then true else false) ≡ b
no_more b = ground arith

contains-collect :
    (hashes : List ℕ) (set : BTreeSet ℕ) (x : ℕ)
    → contains (collect hashes set) x ≡ (if contains hashes x then true else contains set x)
unfolding collect contains
contains-collect [] set x = refl
contains-collect (h ∷ hs) set x =
    rw (contains-collect hs (Set.insert set h) x, contains-insert set h x, contains-cons h hs x)
      (nested (contains hs x) (x == h) (contains set x))

module _ (c : Crypto) where
  abbrev events : ReceiptBook → List ℕ
  events book = map (receipt_event_hash c) book.receipts

  -- The stored receipts claim different events, and exactly those events count as seen.
  pub record IsUnique (book : ReceiptBook) : Type 0 where
    pub distinct : IsNodup (events book)
    pub seen : (x : ℕ) → contains book.seen_receipt_events x ≡ contains (events book) x

  pub persist_receipt-IsUnique :
      (book : ReceiptBook) (r : RelayReceipt)
      → IsUnique book
      → IsUnique (persist_receipt c book r).1
  unfolding persist_receipt
  persist_receipt-IsUnique book r u =
      let event = receipt_event_hash c r in
      elim (Bool-cases (contains book.seen_receipts (receipt_hash c r))) [
        | inl stored ↦ rw (stored, persist_receipt) u
        | inr new ↦ elim (Bool-cases (contains book.seen_receipt_events event)) [
          | inl claimed ↦ rw (new, claimed, persist_receipt) u
          | inr fresh ↦
              let appended = map_append (receipt_event_hash c) book.receipts (r ∷ []) in
              let unseen : contains (events book) event ≡ false =
                ground (arith, fresh, u.seen event) in
              rw (new, fresh, persist_receipt)
                (record {
                  distinct = rw appended (IsNodup-snoc (events book) event u.distinct unseen);
                  seen = λ x. rw appended (
                      rw
                        (
                          contains-insert book.seen_receipt_events event x,
                          u.seen x,
                          contains-snoc (events book) event x,
                        )
                        refl);
                })
        ]
      ]

  import_commitment_receipts-IsUnique :
      (book : ReceiptBook) (receipts : List RelayReceipt)
      → IsUnique book
      → IsUnique (import_commitment_receipts c book receipts)
  unfolding import_commitment_receipts
  import_commitment_receipts-IsUnique book [] u = u
  import_commitment_receipts-IsUnique book (r ∷ rest) u =
      import_commitment_receipts-IsUnique (persist_receipt c book r).1 rest
        (persist_receipt-IsUnique book r u)

  import_chain_receipts-IsUnique :
      (book : ReceiptBook) (blocks : List Block)
      → IsUnique book
      → IsUnique (import_chain_receipts c book blocks)
  unfolding import_chain_receipts
  import_chain_receipts-IsUnique book [] u = u
  import_chain_receipts-IsUnique book (block ∷ rest) u =
      import_chain_receipts-IsUnique (import_commitment_receipts c book block.commitment_receipts)
        rest (import_commitment_receipts-IsUnique book block.commitment_receipts u)

  -- A book whose receipts claim different events, all of them and no others counted as seen, stays
  -- such a book when a chain is adopted: its blocks' receipts are imported and the seen sets built
  -- anew.
  pub adopted_receipts-IsUnique :
      (book : ReceiptBook) (blocks : List Block)
      → IsUnique book
      → IsUnique (rebuild_seen_receipts c (import_chain_receipts c book blocks))
  unfolding rebuild_seen_receipts contains
  adopted_receipts-IsUnique book blocks u =
      let imported = import_chain_receipts c book blocks in
      record {
        distinct = (import_chain_receipts-IsUnique book blocks u).distinct;
        seen =
            λ x. contains-collect (events imported) [] x ∙ no_more (contains (events imported) x);
      }
