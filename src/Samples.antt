-- ===== src/Samples.antt =====
-- Concrete parameters and data for the tests: floats as thousandths, providers that answer.
use memory_agent.Env.{Env}
use memory_agent.Schema.{MemoryRecord, Turn, fact, preference}
use memory_agent.Text.{codes, Text, newline}
use memory_agent.Floats.{IsOrdered, Floats, IsComparable}
use memory_agent.World.{World}
use memory_agent.T1.{record_params, Store}
use memory_agent.Prelude.{
  ℕ, zero, suc, ◌+◌, ◌-◌, ◌*◌, ◌/◌, ◌^◌, ◌≡◌, refl, sym, ap, ◌∙◌, true, false, none, some, [], ◌∷◌,
  map, arith, ltb, leb, length, take, Bool, not, ◌&&◌, eqb, all,
}
use memory_agent.Text.Insertion.{HasNoNewline}

instance abbrev pub thousandths : Floats ℕ
thousandths = record {
  decimal = λ m e. m * 1000 / 10 ^ e;
  of_ℕ = λ n. n * 1000;
  neg = λ x. 0;
  add = λ x y. x + y;
  sub = λ x y. x - y;
  mul = λ x y. x * y / 1000;
  div = λ x y. x * 1000 / y;
  exp = λ x. 1000;
  log = λ x. x - 1000;
  sqrt = λ x. x;
  le = leb;
  lt = ltb;
  seconds_between = λ a b. a - b;
  parse = λ s. none;
}

pub thousandths-IsComparable : IsComparable thousandths
thousandths-IsComparable = record {
  le_of_lt = λ x y h. ground (arith, h);
  zero_le = refl;
  zero-le-one = refl;
  one_le = refl;
}

pub thousandths-IsOrdered : IsOrdered thousandths
thousandths-IsOrdered = record {
  lt_asymm = λ x y h. ground (arith, h);
  lt_cotrans = λ x y z h. ground (arith, h);
}

abbrev pub letters : ℕ → Text
letters zero = []
letters (suc n) = b'a' ∷ letters n

pub letters-length : (n : ℕ) → length (letters n) ≡ n
letters-length zero = refl
letters-length (suc n) = omega (arith, letters-length n)

pub letters_injective : (m n : ℕ) → letters m ≡ letters n → m ≡ n
letters_injective m n e = sym (letters-length m) ∙ ap length e ∙ letters-length n

pub HasNoNewline-test : (t : Text) → all (λ c. not (eqb c newline)) t ≡ true → HasNoNewline t
HasNoNewline-test [] h = tt
HasNoNewline-test (c ∷ t) h =
    let (first, rest) : (eqb c newline ≡ false) × (all (λ c. not (eqb c newline)) t ≡ true) =
      split (eqb c newline) _ h in
    ((λ e. ground (arith, first, e)), HasNoNewline-test t rest)
  where
    split : (a b : Bool) → (not a && b) ≡ true → (a ≡ false) × (b ≡ true)
    split a b e = (ground arith, ground arith)

abbrev pub alice : Text
alice = codes "alice"

abbrev pub bob : Text
bob = codes "bob"

abbrev pub session : Text
session = codes "s1"

abbrev pub sample_turn : Text → Turn ℕ
sample_turn content = record {
  id = codes "turn_";
  session_id = session;
  content = content;
  role = codes "user";
  created_at = 1;
  metadata = [];
}

abbrev pub sample_env : Env ℕ
sample_env = record {
  uuid = letters;
  clock = λ n. n;
  embed = λ n s. some (1000 ∷ []);
  embedder_name = codes "stub";
  embedder_dim = 1;
  embedder_version = none;
  complete = λ n s. some (codes "new");
  loads = λ s. none;
  show = λ x. [];
  dump_turn = λ t. t.content;
  parse_turn = λ s. some (sample_turn s);
  dump_record = λ r. r.id;
  dump_audit = λ a. a.record_id;
  reason = λ x. [];
  isoformat = λ n. [];
  count_tokens = length;
  knn = λ q k vs. map (λ v. (v.0, 0)) (take k vs);
  set_order = λ xs. xs;
}

abbrev pub sample_record : (id user_id content : Text) → MemoryRecord ℕ
sample_record id user_id content = record {
  id = id;
  user_id = user_id;
  session_id = session;
  agent_id = none;
  record_type = fact;
  content = content;
  summary = [];
  keywords = codes "food" ∷ [];
  embedding_model = none;
  embedding_dim = none;
  embedding_version = none;
  protected = true;
  salience = 1000;
  confidence = 900;
  provisional = false;
  valid_from = 0;
  valid_until = none;
  superseded_by = none;
  t0_ref = none;
  source_refs = [];
  access_count = 0;
  last_accessed = none;
  created_at = 0;
  graph_edges = [];
}

abbrev pub nuts : MemoryRecord ℕ
nuts = sample_record (codes "r1") alice (codes "allergic to nuts")

abbrev pub likes_tea : MemoryRecord ℕ
likes_tea = record (sample_record (codes "r2") alice (codes "likes tea")) {
  protected = false;
  record_type = preference;
  salience = 100;
}

abbrev pub empty_world : World ℕ
empty_world = record {
  t1 = record { rows = []; vectors = []; dim = 1 };
  t0 = [];
  vault = some [];
  archives = true;
  buffer = record { k = 20; turns = [] };
  staging = [];
  calls = 0;
  triggers = 0;
}

abbrev pub sample_store : Store ℕ
sample_store = record {
  rows = record_params nuts ∷ record_params likes_tea ∷ [];
  vectors = (codes "r1", 1000 ∷ []) ∷ (codes "r2", 1000 ∷ []) ∷ [];
  dim = 1;
}

abbrev pub sample_world : World ℕ
sample_world = record empty_world { t1 = sample_store }
