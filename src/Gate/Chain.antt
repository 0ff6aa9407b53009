-- ===== src/Gate/Chain.antt =====
-- The hash chain of receipts and its checkpoint: verifyChain of src/gate.ts.
use mathlib.Core.Path.{ap₂}
use angel_cloud.Prelude.{
  Memᴰ, ℕ, suc, ◌+◌, String, ◌≡◌, ◌≢◌, refl, sym, ap, ◌∙◌, subst, ◌⊎◌, inl, inr, List, [], ◌∷◌,
  ◌++◌, eq_iff, eq_refl, length, arith, String-discrete,
}
use angel_cloud.Runtime.{Runtime}
use angel_cloud.Gate.State.{ReceiptBody, GateReceipt, PolicyGateState, zero_hash}
use angel_cloud.Crypto.{sha256_hex}
use angel_cloud.Gate.Encode.{digest_json}
use angel_cloud.Gate.ReceiptText.{JsonTexts, receipt_text, receipt_text-injective}
use angel_cloud.Gate.Receipts.{intact, receipt_hash, append_receipt, verify_from, verify_chain}

module _ (r : Runtime) where
  verify_from-append :
      (index n : ℕ) (previous checkpoint : String) (xs : List GateReceipt) (body : ReceiptBody)
      → verify_from r index previous checkpoint xs ≡ intact n
      → verify_from r index previous (receipt_hash r body checkpoint) (
          xs
          ++ record {
            body = body;
            previous_hash = checkpoint;
            hash = receipt_hash r body checkpoint;
          }
            ∷ [])
        ≡ intact (suc n)
  unfolding verify_from
  verify_from-append index n previous checkpoint [] body h =
      ground (arith, eq_iff checkpoint previous, eq_refl (receipt_hash r body checkpoint))
  verify_from-append index n previous checkpoint (x ∷ xs) body h =
      ground (arith, verify_from-append (suc index) n x.hash checkpoint xs body)

  -- Appending any receipt to an intact chain leaves an intact chain that is one receipt longer.
  pub verify_chain-append_receipt :
      (s : PolicyGateState) (body : ReceiptBody) (n : ℕ)
      → verify_chain r s ≡ intact n
      → verify_chain r (append_receipt r s body).0 ≡ intact (suc n)
  unfolding verify_chain append_receipt
  verify_chain-append_receipt s body n h =
      verify_from-append 0 n zero_hash s.checkpoint s.receipts body h

  verify_from-length :
      (index n : ℕ) (previous checkpoint : String) (xs : List GateReceipt)
      → verify_from r index previous checkpoint xs ≡ intact n
      → n ≡ index + length xs
  unfolding verify_from
  verify_from-length index n previous checkpoint [] h = ground arith
  verify_from-length index n previous checkpoint (x ∷ xs) h =
      ground (arith, verify_from-length (suc index) n x.hash checkpoint xs)

  -- A verified receipt's hash is that of its body and of the hash before it.
  verify_from-head :
      (index n : ℕ) (previous checkpoint : String) (x : GateReceipt) (xs : List GateReceipt)
      → verify_from r index previous checkpoint (x ∷ xs) ≡ intact n
      → (x.previous_hash ≡ previous)
        × (receipt_hash r x.body x.previous_hash ≡ x.hash)
        × (verify_from r (suc index) x.hash checkpoint xs ≡ intact n)
  unfolding verify_from
  verify_from-head index n previous checkpoint x xs h = ground (
    arith,
    eq_iff x.previous_hash previous,
    eq_iff (receipt_hash r x.body x.previous_hash) x.hash,
  )

  -- A receipt of each list, with different canonical texts that have one SHA-256.
  pub record Collision (xs ys : List GateReceipt) : Type 0 where
    pub first : GateReceipt
    pub second : GateReceipt
    pub of_first : Memᴰ first xs
    pub of_second : Memᴰ second ys
    pub differ :
        receipt_text r first.body first.previous_hash
        ≢ receipt_text r second.body second.previous_hash
    pub alike :
        sha256_hex r (receipt_text r first.body first.previous_hash)
        ≡ sha256_hex r (receipt_text r second.body second.previous_hash)

  module _ (texts : JsonTexts r) where
    same_content :
        (x y : GateReceipt) (xs ys : List GateReceipt)
        → receipt_hash r x.body x.previous_hash ≡ x.hash
        → receipt_hash r y.body y.previous_hash ≡ y.hash
        → x.hash ≡ y.hash
        → (x ≡ y) ⊎ Collision (x ∷ xs) (y ∷ ys)
    unfolding receipt_hash digest_json receipt_text
    same_content x y xs ys hx hy e =
        elim (String-discrete (receipt_text r x.body x.previous_hash)
          (receipt_text r y.body y.previous_hash)) [
            | yes p ↦
                let (body, previous) =
                  receipt_text-injective r texts x.body y.body x.previous_hash y.previous_hash p in
                inl (λ i. record { body = body i; previous_hash = previous i; hash = e i })
            | no p ↦ inr (record {
              first = x;
              second = y;
              of_first = Memᴰ.head refl;
              of_second = Memᴰ.head refl;
              differ = p;
              alike = hx ∙ e ∙ sym hy;
            })
          ]

    verify_from-commits :
        (j k n m : ℕ) (p q checkpoint : String) (xs ys : List GateReceipt)
        → length xs ≡ length ys
        → verify_from r j p checkpoint xs ≡ intact n
        → verify_from r k q checkpoint ys ≡ intact m
        → ((xs ≡ ys) × (p ≡ q)) ⊎ Collision xs ys
    unfolding verify_from
    verify_from-commits j k n m p q c [] [] l h g =
        inl (refl, ground (arith, eq_iff c p, eq_iff c q))
    verify_from-commits j k n m p q c [] (y ∷ ys) l h g = absurd (omega arith)
    verify_from-commits j k n m p q c (x ∷ xs) [] l h g = absurd (omega arith)
    verify_from-commits j k n m p q c (x ∷ xs) (y ∷ ys) l h g =
        let (xp, xh, xt) = verify_from-head j n p c x xs h in
        let (yp, yh, yt) = verify_from-head k m q c y ys g in
        elim (verify_from-commits (suc j) (suc k) n m x.hash y.hash c xs ys (omega arith) xt yt) [
          | inr f ↦ inr (record {
            first = f.first;
            second = f.second;
            of_first = Memᴰ.tail f.of_first;
            of_second = Memᴰ.tail f.of_second;
            differ = f.differ;
            alike = f.alike;
          })
          | inl (rest, e) ↦ elim (same_content x y xs ys xh yh e) [
            | inr found ↦ inr found
            | inl same ↦
                inl
                  (ap₂ ◌∷◌ same rest, sym xp ∙ ap (λ (z : GateReceipt). z.previous_hash) same ∙ yp)
          ]
        ]

    -- Two intact chains of one length with one checkpoint hold the same receipts, or a receipt of
    -- the one and a receipt of the other have different canonical JSON texts with one SHA-256. Of
    -- the runtime it is assumed that the JSON literal of a text starts with a quotation mark and
    -- that it can be told where it ends, and where a number in decimal ends.
    pub verify_chain-commits :
        (s t : PolicyGateState) (n : ℕ)
        → verify_chain r s ≡ intact n
        → verify_chain r t ≡ intact n
        → s.checkpoint ≡ t.checkpoint
        → (s.receipts ≡ t.receipts) ⊎ Collision s.receipts t.receipts
    unfolding verify_chain
    verify_chain-commits s t n h g e =
        elim (verify_from-commits 0 0 n n zero_hash zero_hash t.checkpoint s.receipts t.receipts
          same_length (subst (λ c. verify_from r 0 zero_hash c s.receipts ≡ intact n) e h) g) [
            | inl both ↦ inl both.0
            | inr found ↦ inr found
          ]
      where
        same_length : length s.receipts ≡ length t.receipts
        same_length = omega (
          arith,
          verify_from-length 0 n zero_hash s.checkpoint s.receipts h,
          verify_from-length 0 n zero_hash t.checkpoint t.receipts g,
        )
