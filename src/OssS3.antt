-- ===== src/OssS3.antt =====
-- src/mnema/adapters/object_store/oss_s3.py: the T0 store over an S3 bucket, one object for a turn.
-- The service is a parameter: a client with three calls, each of which may raise, and what they are
-- documented to do.
pub mod Keys
pub mod Listing
pub mod Log
pub mod Refine
use memory_agent.Prelude.Dict
use memory_agent.Action.{
  ◌>>=◌, throw, return, or_throw, Action, value_error, out_of_fuel, done, ◌>>◌,
}
use memory_agent.Env.{Audit, Env}
use memory_agent.Schema.{MemoryRecord, Turn}
use memory_agent.Text.{codes, Text, starts_with, drop_prefix, text_eq}
use memory_agent.LocalFs.{split_last, valid_id, ref_of, prefix}
use memory_agent.Text.Decimal.{show_ℕ, read_int}
use memory_agent.Prelude.{
  ℕ, zero, suc, ◌+◌, ◌<◌, ◌≡◌, Bool, true, false, Option, none, some, [], ◌∷◌, ◌++◌, map, eqb,
  if◌then◌else◌,
}
use memory_agent.Prelude.Dict.{Dict}

-- One answer of `list_objects_v2`: KeyCount, IsTruncated, NextContinuationToken.
pub record Page : Type 0 where
  pub key_count : ℕ
  pub is_truncated : Bool
  pub next_token : Option Text

-- A client of one bucket. `Bucket` is the state of the service.
pub record Client (Bucket : Type 0) : Type 0 where
  pub list_objects : Text → Option Text → Action Bucket Page
  pub put_object : Text → Text → Action Bucket (Unit {0})
  pub get_object : Text → Action Bucket Text

-- `if continuation_token`
abbrev pub given : Option Text → Option Text
given none = none
given (some []) = none
given (some (c ∷ s)) = some (c ∷ s)

abbrev pub session_prefix : Text → Text
session_prefix session_id = session_id ++ b'/' ∷ []

abbrev pub json_suffix : Text
json_suffix = codes ".json"

abbrev pub key_of : Text → Text → Text
key_of session_id offset = session_id ++ (b'/' ∷ (offset ++ json_suffix))

-- `replace(":", "-").replace(" ", "_")`
abbrev pub safe_char : ℕ → ℕ
safe_char c = if eqb c b':' then b'-' else if eqb c b' ' then b'_' else c

module _ {Bucket : Type 0} (s3 : Client Bucket) where
  -- The `while True` of `append`; `fuel` bounds its rounds.
  unfoldable pub count_keys : ℕ → Text → ℕ → Option Text → Action Bucket ℕ
  count_keys zero key_prefix offset token = throw out_of_fuel
  count_keys (suc fuel) key_prefix offset token =
      s3.list_objects key_prefix (given token) >>= λ page. elim page.is_truncated [
        | true ↦ count_keys fuel key_prefix (offset + page.key_count) page.next_token
        | false ↦ return (offset + page.key_count)
      ]

  module _ {F : Type 0} (env : Env F) where
    -- The key behind the last one is written, whatever the listing counted.
    unfoldable pub put_turn : ℕ → Text → Turn F → Action Bucket Text
    unfolding count_keys
    put_turn fuel session_id turn = do
      offset ← count_keys fuel (session_prefix session_id) 0 none
      s3.put_object (key_of session_id (show_ℕ offset)) (env.dump_turn turn)
      return (ref_of session_id offset)

    unfoldable pub append : ℕ → Text → Turn F → Action Bucket Text
    unfolding put_turn valid_id
    append fuel session_id turn =
        if valid_id session_id then put_turn fuel session_id turn else throw value_error

    abbrev pub fetch : Text → Text → Action Bucket (Turn F)
    fetch session_id offset = do
      body ← s3.get_object (key_of session_id offset)
      or_throw value_error (env.parse_turn body)

    -- The parts of a reference: a valid session, and an offset that `int` accepts.
    abbrev pub fetch_checked : Text × Text → Action Bucket (Turn F)
    fetch_checked (session_id, offset) =
        if valid_id session_id
        then (elim (read_int offset) [
          | none ↦ throw value_error
          | some n ↦ fetch session_id offset
        ])
        else throw value_error

    abbrev pub fetch_parts : Option (Text × Text) → Action Bucket (Turn F)
    fetch_parts none = throw value_error
    fetch_parts (some parts) = fetch_checked parts

    unfoldable pub get : Text → Action Bucket (Turn F)
    unfolding split_last valid_id read_int starts_with drop_prefix or_throw
    get ref =
        if starts_with ref prefix
        then fetch_parts (split_last (drop_prefix ref prefix))
        else throw value_error

    unfoldable pub archive : MemoryRecord F → Action Bucket Text
    archive r = do
      s3.put_object (codes "archived/" ++ r.id ++ json_suffix) (env.dump_record r)
      return (codes "archived://" ++ r.id)

    unfoldable pub append_audit : Audit F → Action Bucket (Unit {0})
    append_audit entry =
        s3.put_object
          (codes "eviction_audit/"
            ++ map safe_char (env.isoformat entry.evicted_at)
            ++ b'_' ∷ entry.record_id
            ++ json_suffix)
          (env.dump_audit entry)

-- The number of objects whose keys have a prefix.
abbrev pub count_prefix : Text → Dict Text Text → ℕ
count_prefix p [] = 0
count_prefix p ((k, v) ∷ d) = if starts_with k p then suc (count_prefix p d) else count_prefix p d

-- What the service is documented to do, while it answers: objects are stored and found by their
-- keys, and the pages of a listing count the keys with the prefix. `left p t b` is the number of
-- keys that a listing by `p` has still to count from the token `t` on.
pub record IsS3 {Bucket : Type 0} (s3 : Client Bucket) : Type 0 where
  pub objects : Bucket → Dict Text Text
  pub left : Text → Option Text → Bucket → ℕ
  pub left_none : (p : Text) (b : Bucket) → left p none b ≡ count_prefix p (objects b)
  pub page : Text → Option Text → Bucket → Page
  pub list : (p : Text) (t : Option Text) (b : Bucket) → s3.list_objects p t b ≡ done (page p t b) b
  pub last_page :
      (p : Text) (t : Option Text) (b : Bucket)
      → (page p t b).is_truncated ≡ false
      → (page p t b).key_count ≡ left p t b
  pub truncated_page :
      (p : Text) (t : Option Text) (b : Bucket)
      → (page p t b).is_truncated ≡ true
      → (0 < (page p t b).key_count)
        × ((page p t b).key_count + left p (given (page p t b).next_token) b ≡ left p t b)
  pub after_put : Text → Text → Bucket → Bucket
  pub put : (k v : Text) (b : Bucket) → s3.put_object k v b ≡ done tt (after_put k v b)
  pub put_objects : (k v : Text) (b : Bucket) → objects (after_put k v b) ≡ Dict.put k v (objects b)
  pub found :
      (k v : Text) (b : Bucket) → Dict.get k (objects b) ≡ some v → s3.get_object k b ≡ done v b
