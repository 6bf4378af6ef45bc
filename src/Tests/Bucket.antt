-- ===== src/Tests/Bucket.antt =====
-- The theorems on the object stores at concrete inputs: a bucket that lists two keys a page.
use memory_agent.Prelude.Dict
use memory_agent.LocalFs
use memory_agent.OssS3
use memory_agent.Samples.{session, sample_env, thousandths}
use memory_agent.Action.{Action, provider_error, done, raised}
use memory_agent.Schema.{Turn}
use memory_agent.ObjectStore.{Sessions}
use memory_agent.OssS3.{Client, IsS3, count_keys, count_prefix, Page, given}
use memory_agent.Text.{starts_with, Text, codes, text_eq}
use memory_agent.LocalFs.{valid_id}
use memory_agent.Tests.Stores.{first_turn, second_turn, sample_codec}
use memory_agent.OssS3.Log.{HoldsLog}
use memory_agent.OssS3.Refine.{oss_refines, append_full}
use memory_agent.OssS3.Listing.{count_keys-total}
use memory_agent.LocalFs.Log.{fs_refines, HoldsLines}
use memory_agent.ObjectStore.History.{replies, Yields, log_replies, Codecs, log_after, state_after}
use memory_agent.Text.Decimal.{show_ℕ}
use memory_agent.Prelude.{
  ℕ, ◌+◌, ◌-◌, ◌<◌, ◌≡◌, refl, inl, inr, true, false, Option, none, some, List, [], ◌∷◌, arith, leb,
  if◌then◌else◌, Bool-cases, length, ◌↔◌, ◌⊎◌, Bool, In,
}
use memory_agent.Prelude.Dict.{Dict}
use memory_agent.Classifier.{
  looks_like_durable_claim, first_person_stative, modal_hypothetical, is_durable_hint,
}
use memory_agent.Classifier.Durable.{looks_like_durable_claim_iff}
use memory_agent.Classifier.Search.{Occurs}

abbrev Objects : Type 0
Objects = Dict Text Text

-- A token is as long as the number of keys that were counted.
abbrev token_text : Option Text → Text
token_text none = []
token_text (some s) = s

abbrev keys_left : Text → Option Text → Objects → ℕ
keys_left p t b = count_prefix p b - length (token_text t)

abbrev page_of : Text → Option Text → ℕ → Page
page_of p t n =
    if leb n 2 then record { key_count = n; is_truncated = false; next_token = none } else record {
      key_count = 2;
      is_truncated = true;
      next_token = some (b'.' ∷ b'.' ∷ token_text t);
    }

abbrev fetch_object : Text → Action Objects Text
fetch_object k b = elim (Dict.get k b) [ none ↦ raised provider_error b | some v ↦ done v b ]

abbrev small_pages : Client Objects
small_pages = record {
  list_objects = λ p t b. done (page_of p t (keys_left p t b)) b;
  put_object = λ k v b. done tt (Dict.put k v b);
  get_object = fetch_object;
}

last_page_lem :
    (p : Text) (t : Option Text) (n : ℕ)
    → (page_of p t n).is_truncated ≡ false
    → (page_of p t n).key_count ≡ n
last_page_lem p t n h = ground (arith, h)

truncated_page_lem :
    (p : Text) (t : Option Text) (b : Objects)
    → (page_of p t (keys_left p t b)).is_truncated ≡ true
    → (0 < (page_of p t (keys_left p t b)).key_count)
      × ((page_of p t (keys_left p t b)).key_count
            + keys_left p (given (page_of p t (keys_left p t b)).next_token) b
          ≡ keys_left p t b)
truncated_page_lem p t b h = elim (Bool-cases (leb (keys_left p t b) 2)) [
  | inl e ↦ absurd_page (rw e at h)
  | inr e ↦
      rw e (omega arith, (let l : 2 < keys_left p t b = ground (arith, e) in omega (arith, l)))
]
  where
    absurd_page :
        false ≡ true
        → (0 < (page_of p t (keys_left p t b)).key_count)
          × ((page_of p t (keys_left p t b)).key_count
                + keys_left p (given (page_of p t (keys_left p t b)).next_token) b
              ≡ keys_left p t b)
    absurd_page q = cc

found_lem : (k v : Text) (b : Objects) → Dict.get k b ≡ some v → fetch_object k b ≡ done v b
found_lem k v b e = rw (e, fetch_object) refl

abbrev small_pages-IsS3 : IsS3 small_pages
small_pages-IsS3 = record {
  objects = λ b. b;
  left = keys_left;
  left_none = λ p b. omega arith;
  page = λ p t b. page_of p t (keys_left p t b);
  list = λ p t b. refl;
  last_page = λ p t b h. last_page_lem p t (keys_left p t b) h;
  truncated_page = truncated_page_lem;
  after_put = Dict.put;
  put = λ k v b. refl;
  put_objects = λ k v b. refl;
  found = found_lem;
}

-- Three keys on two pages.
count_keys-total_example :
    count_keys small_pages 4
      (codes "s/")
      0
      none
      ((codes "s/0", []) ∷ (codes "s/1", []) ∷ (codes "r/0", []) ∷ (codes "s/2", []) ∷ [])
    ≡ done 3 ((codes "s/0", []) ∷ (codes "s/1", []) ∷ (codes "r/0", []) ∷ (codes "s/2", []) ∷ [])
unfolding starts_with
count_keys-total_example =
    count_keys-total small_pages small_pages-IsS3 4 (codes "s/")
      ((codes "s/0", []) ∷ (codes "s/1", []) ∷ (codes "r/0", []) ∷ (codes "s/2", []) ∷ [])
      (omega arith)

abbrev no_turns : Sessions ℕ
no_turns s = []

-- Two turns, and one for a session id that is refused between them.
abbrev chat : List (Text × Turn ℕ)
chat = (session, first_turn) ∷ (codes "../x", first_turn) ∷ (session, second_turn) ∷ []

chat-Codecs : Codecs sample_env chat
chat-Codecs = (sample_codec.0, (sample_codec.0, (sample_codec.1.0, tt)))

empty_bucket : HoldsLog sample_env small_pages small_pages-IsS3 no_turns []
unfolding Dict.get
empty_bucket = record { counted = λ s v. refl; stored = λ s i t v e. cc; free = λ s i v e. refl }

oss_refines_example :
    (replies (append_full sample_env small_pages small_pages-IsS3) chat []
      ≡ log_replies chat no_turns)
    × HoldsLog sample_env small_pages small_pages-IsS3
        (log_after chat no_turns)
        (state_after (append_full sample_env small_pages small_pages-IsS3) chat [])
    × Yields
        (OssS3.get small_pages sample_env)
        (state_after (append_full sample_env small_pages small_pages-IsS3) chat [])
        (replies (append_full sample_env small_pages small_pages-IsS3) chat [])
        chat
oss_refines_example =
    oss_refines sample_env small_pages small_pages-IsS3 chat no_turns [] empty_bucket chat-Codecs

empty_directory : HoldsLines sample_env no_turns []
unfolding Dict.get
empty_directory = record { content = λ s v. refl; codec = λ s v. tt }

fs_refines_example :
    (replies (LocalFs.append sample_env) chat [] ≡ log_replies chat no_turns)
    × HoldsLines sample_env
        (log_after chat no_turns)
        (state_after (LocalFs.append sample_env) chat [])
    × Yields
        (LocalFs.get sample_env)
        (state_after (LocalFs.append sample_env) chat [])
        (replies (LocalFs.append sample_env) chat [])
        chat
fs_refines_example = fs_refines sample_env chat no_turns [] empty_directory chat-Codecs

-- The replies, computed.
chat_replies :
    log_replies chat no_turns ≡ some (codes "t0://s1/0") ∷ none ∷ some (codes "t0://s1/1") ∷ []
unfolding valid_id show_ℕ
chat_replies = refl

looks_like_durable_claim_iff_example :
    (looks_like_durable_claim (codes "I love tea") none false ≡ true) ↔ (
      (◌≡◌ {A = Bool} false true)
      ⊎ ((is_durable_hint none ≡ true)
          ⊎ (¬ In b'?' (codes "I love tea")
              × ¬ Occurs modal_hypothetical (codes "I love tea")
              × Occurs first_person_stative (codes "I love tea"))))
looks_like_durable_claim_iff_example = looks_like_durable_claim_iff (codes "I love tea") none false
