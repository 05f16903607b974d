-- ===== src/DccWatcher/Verdicts.antt =====
-- The finality check of validator/src/watchers/dcc-watcher.ts against a description of what a
-- confirmed burn is.
use sol_gateway_dcc_zk_proof.Base.{
  ℕ, zero, suc, ◌+◌, ◌≡◌, ◌≢◌, refl, ap, ◌∙◌, inl, inr, true, ◌&&◌, Option, none, some, List, [],
  ◌∷◌, ◌++◌, Text, arith, get_elem?, map_get, text_eq, text_eq_refl, eq_of_text_eq, Bool-cases,
  and_split, Option-cases,
}
use sol_gateway_dcc_zk_proof.Messages.{DccBurnEvent}
use sol_gateway_dcc_zk_proof.DccWatcher.{DccTransaction, Block, DccNode, Watcher, burn_prefix}
use sol_gateway_dcc_zk_proof.DccWatcher.Finality.{
  has_transaction, block_has, has_successor, value_of, secondary_agrees, verify_event, verify_entry,
  verify_burn_on_chain,
}

-- The block holds a transaction with the id.
pub record HoldsTransaction (tx_id : Text) (node : DccNode) (height : ℕ) : Type 0 where
  pub block : Block
  pub txs : List DccTransaction
  pub index : ℕ
  pub tx : DccTransaction
  pub at_height : node.block_at height ≡ some block
  pub read : block.transactions ≡ some txs
  pub found : get_elem? txs index ≡ some tx
  pub same : tx.id ≡ tx_id

-- What makes a burn final: depth, a record of the contract, a successor of its block, its
-- transaction in that block, and the same record with the secondary node, if there is one.
pub record IsConfirmed (node : DccNode) (secondary : Option DccNode) (burn_id : Text)
    (event : DccBurnEvent) : Type 0 where
  pub value : Text
  pub written : value ≢ []
  pub entry : node.entry (burn_prefix ++ burn_id) ≡ some (some value)
  pub successor : Block
  pub succeeded : node.block_at (event.height + 1) ≡ some successor
  pub referred : successor.has_reference ≡ true
  pub held : HoldsTransaction event.tx_id node event.height
  pub agreed :
      (other : DccNode)
      → secondary ≡ some other
      → other.entry (burn_prefix ++ burn_id) ≡ some (some value)

value_of-some :
    (o : Option (Option Text)) (value : Text)
    → value_of o ≡ some value
    → (o ≡ some (some value)) × (value ≢ [])
value_of-some none value h = cc h
value_of-some (some none) value h = cc h
value_of-some (some (some [])) value h = cc h
value_of-some (some (some (c ∷ cs))) value h =
    let same : c ∷ cs ≡ value = cc h in (cc same, λ e. cc (same, e))

some-value_of :
    (o : Option (Option Text)) (value : Text)
    → o ≡ some (some value)
    → value ≢ []
    → value_of o ≡ some value
some-value_of none value h n = cc h
some-value_of (some none) value h n = cc h
some-value_of (some (some [])) value h n = absurd (n (cc h))
some-value_of (some (some (c ∷ cs))) value h n = cc h

has_transaction-found :
    (tx_id : Text) (txs : List DccTransaction)
    → has_transaction tx_id txs ≡ true
    → (i : ℕ) × (tx : DccTransaction) × (get_elem? txs i ≡ some tx) × (tx.id ≡ tx_id)
has_transaction-found tx_id [] h = cc h
has_transaction-found tx_id (t ∷ txs) h = elim (Bool-cases (text_eq t.id tx_id)) [
  | inl same ↦ (0, t, refl, eq_of_text_eq t.id tx_id same)
  | inr other ↦
      let (i, tx, found, same) = has_transaction-found tx_id txs (rw other at h) in
      (suc i, tx, found, same)
]

found-has_transaction :
    (tx_id : Text) (txs : List DccTransaction) (i : ℕ) (tx : DccTransaction)
    → get_elem? txs i ≡ some tx
    → tx.id ≡ tx_id
    → has_transaction tx_id txs ≡ true
found-has_transaction tx_id [] i tx found same = cc found
found-has_transaction tx_id (t ∷ txs) zero tx found same =
    let one : t ≡ tx = cc found in
    let t_same : t.id ≡ tx_id = ap (λ (x : DccTransaction). x.id) one ∙ same in
    rw (t_same, text_eq_refl tx_id) refl
found-has_transaction tx_id (t ∷ txs) (suc i) tx found same =
    let rest = found-has_transaction tx_id txs i tx found same in ground (arith, rest)

block_has-HoldsTransaction :
    (tx_id : Text) (node : DccNode) (height : ℕ)
    → block_has tx_id (node.block_at height) ≡ true
    → HoldsTransaction tx_id node height
block_has-HoldsTransaction tx_id node height h = elim (Option-cases (node.block_at height)) [
  | inl gone ↦ let e = rw gone at h in cc e
  | inr (block, here) ↦ elim (Option-cases block.transactions) [
    | inl gone ↦ let e = rw (here, gone) at h in cc e
    | inr (txs, read) ↦
        let (i, tx, found, same) = has_transaction-found tx_id txs (rw (here, read) at h) in
        record {
          block = block;
          txs = txs;
          index = i;
          tx = tx;
          at_height = here;
          read = read;
          found = found;
          same = same;
        }
  ]
]

HoldsTransaction-block_has :
    (tx_id : Text) (node : DccNode) (height : ℕ)
    → HoldsTransaction tx_id node height
    → block_has tx_id (node.block_at height) ≡ true
HoldsTransaction-block_has tx_id node height h =
    rw (h.at_height, h.read) (found-has_transaction tx_id h.txs h.index h.tx h.found h.same)

secondary_agrees-agreed :
    (secondary : Option DccNode) (key value : Text)
    → secondary_agrees secondary key value ≡ true
    → (other : DccNode) → secondary ≡ some other
    → other.entry key ≡ some (some value)
unfolding secondary_agrees
secondary_agrees-agreed none key value h other e = cc e
secondary_agrees-agreed (some node) key value h other e =
    let one : node ≡ other = cc e in
    elim (Option-cases (value_of (node.entry key))) [
      | inl gone ↦ let f = rw gone at h in cc f
      | inr (v, here) ↦
          let same : v ≡ value = eq_of_text_eq v value (rw here at h) in
          rw (← one, ← same) ((value_of-some (node.entry key) v here).0)
    ]

agreed-secondary_agrees :
    (secondary : Option DccNode) (key value : Text)
    → value ≢ []
    → ((other : DccNode) → secondary ≡ some other → other.entry key ≡ some (some value))
    → secondary_agrees secondary key value ≡ true
unfolding secondary_agrees
agreed-secondary_agrees none key value n h = refl
agreed-secondary_agrees (some node) key value n h =
    rw (some-value_of (node.entry key) value (h node refl) n) (text_eq_refl value)

module _ (node : DccNode) (secondary : Option DccNode) where
  verify_event-IsConfirmed :
      (burn_id value : Text) (event : DccBurnEvent)
      → value_of (node.entry (burn_prefix ++ burn_id)) ≡ some value
      → verify_event node secondary (burn_prefix ++ burn_id) value event ≡ true
      → IsConfirmed node secondary burn_id event
  unfolding verify_event
  verify_event-IsConfirmed burn_id value event here h =
      let key = burn_prefix ++ burn_id in
      let (entry, written) = value_of-some (node.entry key) value here in
      let next = node.block_at (event.height + 1) in
      let in_block = block_has event.tx_id (node.block_at event.height) in
      let (both, agreed) =
        and_split (has_successor next && in_block) (secondary_agrees secondary key value) h in
      let (successor, held) = and_split (has_successor next) in_block both in
      elim (Option-cases next) [
        | inl gone ↦ let e = rw gone at successor in cc e
        | inr (block, there) ↦ record {
          value = value;
          written = written;
          entry = entry;
          successor = block;
          succeeded = there;
          referred = rw there at successor;
          held = block_has-HoldsTransaction event.tx_id node event.height held;
          agreed = secondary_agrees-agreed secondary key value agreed;
        }
      ]

  pub verify_burn_on_chain-IsConfirmed :
      (burn_id : Text) (event : DccBurnEvent) (w : Watcher)
      → map_get burn_id w.pending_burns ≡ some event
      → verify_burn_on_chain node secondary burn_id w ≡ true
      → IsConfirmed node secondary burn_id event
  unfolding verify_burn_on_chain verify_entry
  verify_burn_on_chain-IsConfirmed burn_id event w pending h =
      elim (Option-cases (value_of (node.entry (burn_prefix ++ burn_id)))) [
        | inl gone ↦ let e = rw gone at h in cc e
        | inr (value, here) ↦
            verify_event-IsConfirmed burn_id value event here (rw (here, pending) at h)
      ]

  pub IsConfirmed-verify_burn_on_chain :
      (burn_id : Text) (event : DccBurnEvent) (w : Watcher)
      → map_get burn_id w.pending_burns ≡ some event
      → IsConfirmed node secondary burn_id event
      → verify_burn_on_chain node secondary burn_id w ≡ true
  unfolding verify_burn_on_chain verify_entry verify_event
  IsConfirmed-verify_burn_on_chain burn_id event w pending c =
      let key = burn_prefix ++ burn_id in
      rw
        (
          some-value_of (node.entry key) c.value c.entry c.written,
          pending,
          c.succeeded,
          c.referred,
          HoldsTransaction-block_has event.tx_id node event.height c.held,
          agreed-secondary_agrees secondary key c.value c.written c.agreed,
        )
        refl
