-- ===== src/Platform/Example.antt =====
-- An instance of the parameters, which shows that what is assumed of them can hold: the storage is a
-- list of statements with their graphs, and every byte of a content is a statement.
use redstore.Base.{
  ℕ, ◌≡◌, refl, sym, ap, ◌∙◌, ◌≢◌, ◌↔◌, ◌⊎◌, inl, inr, Bool, true, false, ◌||◌, Option, none, some,
  List, [], ◌∷◌, pos, if◌then◌else◌, Bool-cases, Str, codes, str_eq, str_eq_iff, str_ne,
}
use mathlib.Core.List.{Memᴰ}
use redstore.Negotiate.Tests.{tenths}
use redstore.Format.{Description}
use redstore.Platform.{Platform, Call, Stream}
use redstore.Program.Calls.{quiet, stream_of}
use redstore.Data.Store.{IsStore}

abbrev pub Quads : Type 0
Quads = List (Str × Str)

abbrev pub singletons : List ℕ → List Str
singletons [] = []
singletons (c ∷ s) = (c ∷ []) ∷ singletons s

unfoldable pub quads_exist : Quads → Str → Bool
quads_exist [] n = false
quads_exist ((g, t) ∷ w) n = str_eq g n || quads_exist w n

unfoldable pub quads_added : Str → List Str → Quads → Quads
quads_added n [] w = w
quads_added n (x ∷ xs) w = (n, x) ∷ quads_added n xs w

unfoldable pub quads_cleared : Str → Quads → Quads
quads_cleared n [] = []
quads_cleared n ((g, t) ∷ w) =
    let rest = quads_cleared n w in if str_eq g n then rest else (g, t) ∷ rest

-- The objects of a stream that are not NULL.
abbrev objects : {A : Type 0} → Stream A → List A
objects [] = []
objects ((none, messages) ∷ next) = objects next
objects ((some a, messages) ∷ next) = a ∷ objects next

-- The default graph is the one without a name.
abbrev graph_of : Option Str → Str
graph_of none = []
graph_of (some n) = n

abbrev graph_names : Quads → List Str
graph_names [] = []
graph_names ((g, t) ∷ w) = g ∷ graph_names w

abbrev statements : Quads → List Str
statements [] = []
statements ((g, t) ∷ w) = t ∷ statements w

abbrev pub answering : {W A : Type 0} → A → Call W A
answering a w = quiet a w

abbrev text_format : Description
text_format = record {
  names = codes "text" ∷ [];
  label = some (codes "Text");
  uri_strings = some (codes "http://w/t" ∷ codes "http://v/t" ∷ []);
  mime_types = record { type = codes "text/plain"; q = 10 } ∷ [];
}

abbrev pub quads : Platform
quads = record {
  double = tenths;
  World = Quads;
  Uri = Str;
  Node = Str;
  Statement = Str;
  Parser = Str;
  Serializer = Unit;
  Query = Str;
  Results = Str;
  Formatter = Unit;
  new_uri = λ s. answering (some s);
  new_uri_relative_to_base = λ base s. answering (some s);
  new_uri_from_uri = λ u. answering (some u);
  uri_as_string = λ u. b'u' ∷ u;
  new_node_from_uri = λ u. answering (some u);
  new_node_from_uri_string = λ s. answering (some s);
  node_get_uri = λ n. some n;
  contains_context = λ n w. quiet (quads_exist w n) w;
  context_add_statements = λ n xs w. quiet false (quads_added (graph_of n) (objects xs) w);
  context_remove_statements = λ n w. quiet false (quads_cleared n w);
  context_remove_statement = λ n s. answering false;
  remove_statement = λ s. answering false;
  as_stream = λ w. quiet (some (stream_of (statements w))) w;
  context_as_stream = λ n w. quiet (some (stream_of (statements w))) w;
  get_contexts = λ w. quiet (some (stream_of (graph_names w))) w;
  parser_guess_name = λ type content. answering (some (codes "bytes"));
  new_parser = λ name. answering (some name);
  parse_string = λ parser content base. answering (some (stream_of (singletons content)));
  parse_uri = λ parser uri base. answering none;
  new_serializer = λ name. answering (some tt);
  serialize = λ serializer stream. answering (codes "graph");
  new_query = λ lang text. answering (some text);
  query_execute = λ query. answering (some query);
  is_bindings = λ results. true;
  is_graph = λ results. false;
  is_boolean = λ results. false;
  is_syntax = λ results. false;
  results_as_stream = λ results. answering none;
  new_formatter = λ results name. answering (some tt);
  new_iostream = answering true;
  formatter_write = λ formatter results. answering results;
  Storage = Unit;
  Model = Unit;
  new_node = answering (some []);
  new_node_from_uri_local_name = λ uri s. answering (some s);
  new_node_from_literal = answering;
  new_node_from_typed_literal = λ s type. answering (some s);
  ms_type = codes "type";
  s_label = codes "label";
  s_comment = codes "comment";
  s_is_defined_by = codes "isDefinedBy";
  s_see_also = codes "seeAlso";
  new_storage = answering (some tt);
  new_model = λ storage. answering (some tt);
  Hash = Unit;
  new_hash_from_string = λ options. answering (some tt);
  hash_put_strings = λ hash key value. answering false;
  hash_to_string = λ hash filter. answering none;
  new_storage_with_options = λ type name hash. answering (some tt);
  new_uri_from_filename = λ s. answering (some s);
  model_load = λ model uri format. answering false;
  model_add = λ model s p o. answering false;
  model_as_stream = λ model w. quiet (some (stream_of (statements w))) w;
  storage_size = answering (pos 0);
  parsers = text_format ∷ [];
  serializers = text_format ∷ [];
  results_formats = text_format ∷ [];
  query_languages = text_format ∷ [];
  xml_escape = λ s. s;
  xml_escape_quote = λ s. s;
  librdf_version = codes "1";
  raptor_version = codes "2";
  rasqal_version = codes "0";
  signature = codes "redstore/0";
  package_version = codes "0";
  build_time = codes "today";
  date = some (codes "today");
  can_allocate = λ n. true;
  random = 7;
}

abbrev QuadHolds : Quads → Str → Str → Type 0
QuadHolds [] n s = ⊥
QuadHolds ((g, t) ∷ w) n s = ((g ≡ n) × (t ≡ s)) ⊎ QuadHolds w n s

pub exist_holds : (w : Quads) (n : Str) → quads_exist w n ≡ true → (s : Str) × QuadHolds w n s
unfolding quads_exist
exist_holds [] n e = cc e
exist_holds ((g, t) ∷ w) n e = elim (Bool-cases (str_eq g n)) [
  | inl same ↦ (t, inl ((str_eq_iff g n).0 same, refl))
  | inr other ↦ let (s, h) = exist_holds w n (rw other at e) in (s, inr h)
]

pub holds_exist : (w : Quads) (n s : Str) → QuadHolds w n s → quads_exist w n ≡ true
unfolding quads_exist
holds_exist [] n s h = absurd h
holds_exist ((g, t) ∷ w) n s (inl (eg, et)) = rw ((str_eq_iff g n).1 eg) refl
holds_exist ((g, t) ∷ w) n s (inr h) = elim (Bool-cases (str_eq g n)) [
  | inl same ↦ rw same refl
  | inr other ↦ rw other (holds_exist w n s h)
]

pub added_holds_iff :
    (n : Str) (xs : List Str) (w : Quads) (m s : Str)
    → QuadHolds (quads_added n xs w) m s ↔ (QuadHolds w m s ⊎ ((m ≡ n) × Memᴰ s xs))
unfolding quads_added
added_holds_iff n [] w m s =
    (λ h. inl h, λ h. elim h [ inl old ↦ old | inr (e, mem) ↦ elim mem [ ] ])
added_holds_iff n (x ∷ xs) w m s =
    let (to, from) = added_holds_iff n xs w m s in
    (
      λ h. elim h [
        | inl (eg, et) ↦ inr (sym eg, Memᴰ.head (sym et))
        | inr rest ↦ elim (to rest) [ inl old ↦ inl old | inr (e, mem) ↦ inr (e, Memᴰ.tail mem) ]
      ],
      λ h. elim h [
        | inl old ↦ inr (from (inl old))
        | inr (e, mem) ↦ elim mem [
          | Memᴰ.head es ↦ inl (sym e, sym es)
          | Memᴰ.tail later ↦ inr (from (inr (e, later)))
        ]
      ],
    )

pub cleared_holds_iff :
    (n : Str) (w : Quads) (m s : Str)
    → QuadHolds (quads_cleared n w) m s ↔ (QuadHolds w m s × (m ≢ n))
unfolding quads_cleared
cleared_holds_iff n [] m s = (λ h. absurd h, λ h. h.0)
cleared_holds_iff n ((g, t) ∷ w) m s =
    let (to, from) = cleared_holds_iff n w m s in
    elim (Bool-cases (str_eq g n)) [
      | inl same ↦ rw same (
        λ h. let (old, other) = to h in (inr old, other),
        λ (h, other). elim h [
          | inl (eg, et) ↦ absurd (other (sym eg ∙ (str_eq_iff g n).0 same))
          | inr old ↦ from (old, other)
        ],
      )
      | inr differ ↦ rw differ (
        λ h. elim h [
          | inl (eg, et) ↦ (inl (eg, et), λ e. str_ne g n differ (eg ∙ e))
          | inr rest ↦ let (old, other) = to rest in (inr old, other)
        ],
        λ (h, other). elim h [ inl here ↦ inl here | inr old ↦ inr (from (old, other)) ],
      )
    ]

pub objects-stream_of : (xs : List Str) → objects (stream_of xs) ≡ xs
objects-stream_of [] = refl
objects-stream_of (x ∷ xs) = ap (λ t. x ∷ t) (objects-stream_of xs)

abbrev pub quads_store : IsStore quads
quads_store = record {
  Holds = QuadHolds;
  exists = quads_exist;
  exists_holds = exist_holds;
  holds_exists = holds_exist;
  contains_answer = λ n w. refl;
  added = quads_added;
  add_answer = λ n xs w. ap (λ ys. quiet false (quads_added n ys w)) (objects-stream_of xs);
  added_holds = added_holds_iff;
  cleared = quads_cleared;
  clear_answer = λ n w. refl;
  cleared_holds = cleared_holds_iff;
}
