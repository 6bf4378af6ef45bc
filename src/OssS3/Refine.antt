-- ===== src/OssS3/Refine.antt =====
-- src/mnema/adapters/object_store/oss_s3.py: the calls refine those of lists of turns.
use memory_agent.Prelude.Dict
use memory_agent.Action.{or_throw, then_do, value_error, done, Action, raised}
use memory_agent.OssS3.{fetch, fetch_checked, IsS3, key_of, get, Client, fetch_parts, append}
use memory_agent.Env.{Env, IsCodecOf}
use memory_agent.Schema.{Turn}
use memory_agent.Text.{Text, starts_with, drop_prefix, text_eq}
use memory_agent.LocalFs.{valid_id, ref_of}
use memory_agent.LocalFs.Refs.{split_last-slash, ref_of-parts, digits-slash}
use memory_agent.Text.RoundTrip.{show_ℕ-IsDigit, read_int-show_ℕ}
use memory_agent.Text.Decimal.{show_ℕ}
use memory_agent.Prelude.{ℕ, ◌≡◌, ap, ◌∙◌, true, some, refl, false, List}
use memory_agent.Prelude.Dict.{Dict}
use memory_agent.ObjectStore.{IsLogStore, Sessions}
use memory_agent.OssS3.Log.{append-HoldsLog, after_append, append-total, HoldsLog, rounds}
use memory_agent.ObjectStore.History.{
  replies, replies_refine, Codecs, log_after, Yields, replies-Yields, state_after, log_replies,
}

module _ {F Bucket : Type 0} (env : Env F) (s3 : Client Bucket) (laws : IsS3 s3) where
  fetch-stored :
      (s offset : Text) (t : Turn F) (b : Bucket)
      → Dict.get (key_of s offset) (laws.objects b) ≡ some (env.dump_turn t)
      → IsCodecOf env t
      → fetch s3 env s offset b ≡ done t b
  unfolding or_throw
  fetch-stored s offset t b e c =
      ap (then_do _) (laws.found _ _ b e) ∙ ap (λ o. or_throw value_error o b) c.parse-dump

  fetch_checked-done :
      (s : Text) (i : ℕ) (t : Turn F) (b : Bucket)
      → valid_id s ≡ true
      → fetch s3 env s (show_ℕ i) b ≡ done t b
      → fetch_checked s3 env (s, show_ℕ i) b ≡ done t b
  fetch_checked-done s i t b v e = rw (v, read_int-show_ℕ i) e

  pub get-stored :
      (s : Text) (i : ℕ) (t : Turn F) (b : Bucket)
      → valid_id s ≡ true
      → Dict.get (key_of s (show_ℕ i)) (laws.objects b) ≡ some (env.dump_turn t)
      → IsCodecOf env t
      → get s3 env (ref_of s i) b ≡ done t b
  unfolding get starts_with drop_prefix
  get-stored s i t b v e c =
      ap (λ r. get s3 env r b) (ref_of-parts s i)
      ∙ ap (λ o. fetch_parts s3 env o b)
          (split_last-slash s (show_ℕ i) (digits-slash _ (show_ℕ-IsDigit i)))
      ∙ fetch_checked-done s i t b v (fetch-stored s (show_ℕ i) t b e c)

  abbrev pub append_full : Text → Turn F → Action Bucket Text
  append_full s t b = append s3 env (rounds env s3 laws b) s t b

  append-invalid :
      (s : Text) (t : Turn F) (b : Bucket)
      → valid_id s ≡ false
      → append_full s t b ≡ raised value_error b
  unfolding append
  append-invalid s t b v = rw v refl

  abbrev oss_log_store : IsLogStore env append_full (get s3 env)
  oss_log_store = record {
    Represents = HoldsLog env s3 laws;
    after = after_append env s3 laws;
    append_done = λ log s t b h v.
        append-total env s3 laws s t b v
        ∙ ap (λ n. done (ref_of s n) (after_append env s3 laws s t b)) (h.counted s v);
    append_keeps = λ log s t b h v c. append-HoldsLog env s3 laws log s t b h v c;
    append_invalid = append-invalid;
    get_done =
        λ log s i t b h v e. let kept = h.stored s i t v e in get-stored s i t b v kept.0 kept.1;
  }

  -- The bucket answers every history of appends as the lists of turns do: with the references of
  -- consecutive places, and a refusal for an invalid session id. It holds the turns of all valid
  -- sessions afterwards, and every reference that was returned yields its turn. For turns that the
  -- codecs read back, and a service that answers as it is documented to.
  pub oss_refines :
      (h : List (Text × Turn F)) (log : Sessions F) (b : Bucket)
      → HoldsLog env s3 laws log b
      → Codecs env h
      → (replies append_full h b ≡ log_replies h log)
        × HoldsLog env s3 laws (log_after h log) (state_after append_full h b)
        × Yields (get s3 env) (state_after append_full h b) (replies append_full h b) h
  oss_refines h log b r c =
      let all = replies_refine env append_full (get s3 env) oss_log_store h log b r c in
      (all.0, all.1, replies-Yields env append_full (get s3 env) oss_log_store h log b r c)
