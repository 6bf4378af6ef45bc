-- ===== src/OssS3/Listing.antt =====
-- src/mnema/adapters/object_store/oss_s3.py: the loop over the pages of a listing ends.
use memory_agent.Action.{Action, then_do, return, done}
use memory_agent.OssS3.{given, Client, count_prefix, count_keys, IsS3}
use memory_agent.Text.{Text}
use memory_agent.Prelude.{
  ℕ, zero, suc, ◌+◌, ◌<◌, ◌≡◌, ap, ◌∙◌, inl, inr, true, false, Option, none, arith, Bool-cases,
}

module _ {Bucket : Type 0} (s3 : Client Bucket) (laws : IsS3 s3) where
  -- One round, for any way `go` to count the rest.
  count_round :
      (go : ℕ → Option Text → Action Bucket ℕ) (fuel : ℕ) (p : Text) (n : ℕ) (t : Option Text)
      → (b : Bucket)
      → ((m : ℕ) (t' : Option Text)
          → laws.left p (given t') b < fuel
          → go m t' b ≡ done (m + laws.left p (given t') b) b)
      → laws.left p (given t) b < suc fuel
      → (let page = laws.page p (given t) b in
            elim page.is_truncated as (λ _. Action Bucket ℕ) [
              | true ↦ go (n + page.key_count) page.next_token
              | false ↦ return (n + page.key_count)
            ])
          b
        ≡ done (n + laws.left p (given t) b) b
  count_round go fuel p n t b rest h = elim (Bool-cases (laws.page p (given t) b).is_truncated) [
    | inl e ↦
        let more = laws.truncated_page p (given t) b e in
        rw e (rest _ _ (omega (arith, more, h)) ∙ ap (λ k. done k b) (omega (arith, more)))
    | inr e ↦ rw e (ap (λ k. done (n + k) b) (laws.last_page p (given t) b e))
  ]

  -- What is still to count falls with every truncated page, since such a page has a key.
  count_keys-left :
      (fuel : ℕ) (p : Text) (n : ℕ) (t : Option Text) (b : Bucket)
      → laws.left p (given t) b < fuel
      → count_keys s3 fuel p n t b ≡ done (n + laws.left p (given t) b) b
  unfolding count_keys
  count_keys-left zero p n t b h = absurd (omega arith)
  count_keys-left (suc fuel) p n t b h =
      ap (then_do _) (laws.list p (given t) b)
      ∙ count_round (count_keys s3 fuel p) fuel p n t b
          (λ m t' h'. count_keys-left fuel p m t' b h') h

  -- The loop ends, with the number of the keys that have the prefix, where it may run for more
  -- rounds than there are such keys.
  pub count_keys-total :
      (fuel : ℕ) (p : Text) (b : Bucket)
      → count_prefix p (laws.objects b) < fuel
      → count_keys s3 fuel p 0 none b ≡ done (count_prefix p (laws.objects b)) b
  count_keys-total fuel p b h =
      count_keys-left fuel p 0 none b (rw (laws.left_none p b) h)
      ∙ ap (λ k. done k b) (omega (arith, laws.left_none p b))
