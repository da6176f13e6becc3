-- ===== src/Sqlite/Encoding.antt =====
-- internal/persistence/codec.go: `EncodeValue` and `DecodeValue` over encoding/gob; and
-- `encodePayload`, which is `EncodeValue` again, and `decodePayload` of
-- internal/taskqueue/sqlite_queue.go.
use fluxo.Common.{
  ℕ, ◌≡◌, refl, Bool, true, false, none, some, Option, String, List, [], ◌∷◌, if◌then◌else◌, ◌&&◌,
  arith, inl, inr, ◌⊎◌,
}
use fluxo.Api.{
  Value, null, user, text, signal_payload, timeout_payload, start_workflow_payload, wait_meta,
  strings, slice, Err, message, Result, value, error, Result-cases,
}
use fluxo.Sqlite.{Codec, IsFaithful}

-- The types that `tryDecodeCommonConcreteAsAny` tries.
pub data Candidate : Type 0 where
  string_type bytes_type int_type int64_type float64_type bool_type : Candidate
  string_map_type int_map_type slice_type strings_type ints_type : Candidate

-- encoding/gob and what Go does with an `any`. `bytes` are slices of some bytes. `decode_any` decodes
-- into an `any`, `decode_results` into a `map[int]any`, `decode_as` into one of the candidates, which
-- is then put in an `any`. `box` puts a `map[int]any` in an `any`, and `unbox` is the assertion on
-- it. `type_name` is `%T`, `error_text` is `Error()`, and `contains` is `strings.Contains`.
pub record Gob : Type 1 where
  pub bytes : Type 0
  pub encode : Value → Result bytes
  pub decode_any : bytes → Result Value
  pub decode_results : bytes → Result (Option (List (ℕ × Value)))
  pub decode_as : Candidate → bytes → Result Value
  pub box : Option (List (ℕ × Value)) → Value
  pub unbox : Value → Option (Option (List (ℕ × Value)))
  pub type_name : Value → String
  pub error_text : Err → String
  pub contains : String → String → Bool

abbrev pub is_nil : Value → Bool
is_nil null = true
is_nil _ = false

-- What was encoded is read back, and a map in an `any` is there and can be taken out.
pub record IsGob (g : Gob) : Type 0 where
  pub reads_back : (v : Value) (b : g.bytes) → g.encode v ≡ value b → g.decode_any b ≡ value v
  pub box-unbox : (m : Option (List (ℕ × Value))) → g.unbox (g.box m) ≡ some m
  pub there : (m : Option (List (ℕ × Value))) → is_nil (g.box m) ≡ false

-- The type parameter of `DecodeValue`: `assert` is the assertion on an `any`, `decode` decodes into
-- a variable of the type.
pub record Target (bytes T : Type 0) : Type 0 where
  pub zero_value : T
  pub is_interface : Bool
  pub assert : Value → Option T
  pub decode : bytes → Result T

abbrev pub not_nil : Value → Option Value
not_nil null = none
not_nil v = some v

abbrev pub candidates : List Candidate
candidates =
    string_type ∷ bytes_type ∷ int_type ∷ int64_type ∷ float64_type ∷ bool_type ∷ string_map_type
    ∷ int_map_type ∷ slice_type ∷ strings_type ∷ ints_type ∷ []

module _ (g : Gob) where
  -- The types that the stores decode into.
  abbrev pub any_target : Target g.bytes Value
  any_target = record {
    zero_value = null;
    is_interface = true;
    assert = not_nil;
    decode = g.decode_any;
  }

  abbrev pub results_target : Target g.bytes (Option (List (ℕ × Value)))
  results_target = record {
    zero_value = none;
    is_interface = false;
    assert = g.unbox;
    decode = g.decode_results;
  }

  -- `none` is the slice of no bytes.
  unfoldable pub encode_value : Value → Result (Option g.bytes)
  encode_value v =
      if is_nil v
      then value none
      else elim (g.encode v) [ value b ↦ value (some b) | error e ↦ error e ]

  unfoldable pub must_retry_as_concrete : Err → Bool
  must_retry_as_concrete e =
      g.contains (g.error_text e) "can only be decoded from remote interface"
      && g.contains (g.error_text e) "received concrete type"

  nil-cases : (v : Value) → (v ≡ null) ⊎ ((is_nil v ≡ false) × (not_nil v ≡ some v))
  nil-cases null = inl refl
  nil-cases (user t n) = inr (refl, refl)
  nil-cases (text s) = inr (refl, refl)
  nil-cases (signal_payload n v) = inr (refl, refl)
  nil-cases (timeout_payload s) = inr (refl, refl)
  nil-cases (start_workflow_payload v) = inr (refl, refl)
  nil-cases (wait_meta s b) = inr (refl, refl)
  nil-cases (strings xs) = inr (refl, refl)
  nil-cases (slice vs) = inr (refl, refl)

  encode_value-some :
      (v : Value) (row : Option g.bytes)
      → is_nil v ≡ false
      → encode_value v ≡ value row
      → (b : g.bytes) × (g.encode v ≡ value b) × (row ≡ some b)
  unfolding encode_value
  encode_value-some v row real encoded = elim (Result-cases (g.encode v)) [
    | inl (b, e) ↦ (b, e, ground (arith, e, real, encoded))
    | inr (x, e) ↦ ground (arith, e, real, encoded)
  ]

  -- `none` is a panic: the assertion without `ok` on a nil interface.
  module _ {T : Type 0} (t : Target g.bytes T) where
    unfoldable pub try_decode_as_any : g.bytes → Option (Result T)
    try_decode_as_any b = elim (g.decode_any b) [
      | error e ↦ some (error e)
      | value iv ↦ elim (t.assert iv) [
        | some v ↦ some (value v)
        | none ↦
            if t.is_interface
            then none
            else some (
                error (
                  message "gob: decoded interface payload of type %T not assignable to target"
                    (g.type_name iv ∷ [])))
      ]
    ]

    unfoldable pub try_candidates : List Candidate → g.bytes → Option (Result T)
    try_candidates [] b =
        some (error (message "no matching common concrete type for interface target" []))
    try_candidates (c ∷ cs) b =
        let rest = try_candidates cs b in
        elim (g.decode_as c b) [
          | error _ ↦ rest
          | value iv ↦ elim (t.assert iv) [
            | some v ↦ some (value v)
            | none ↦ if t.is_interface then none else rest
          ]
        ]

    unfoldable pub decode_value : Option g.bytes → Option (Result T)
    decode_value none = some (value t.zero_value)
    decode_value (some b) = elim (try_decode_as_any b) [
      | none ↦ none
      | some (value v) ↦ some (value v)
      | some (error e) ↦
          if must_retry_as_concrete e
          then elim (t.decode b) [
            | value v ↦ some (value v)
            | error e1 ↦ if t.is_interface then try_candidates candidates b else some (error e1)
          ]
          else some (error e)
    ]

    -- A value that is there and is of the type is decoded as it was.
    decode_value-encode_value :
        (v : Value) (x : T) (row : Option g.bytes)
        → IsGob g
        → is_nil v ≡ false
        → t.assert v ≡ some x
        → encode_value v ≡ value row
        → decode_value row ≡ some (value x)
    unfolding decode_value try_decode_as_any
    decode_value-encode_value v x row gob real of_type encoded =
        let (b, written, e) = encode_value-some v row real encoded in
        let back = gob.reads_back v b written in rw (e, back, of_type, decode_value) refl

  -- The two functions as the stores call them. A panic becomes an error here; it comes only of bytes
  -- that hold a nil interface, which `encode_value` does not write.
  abbrev pub panic_as_error : {T : Type 0} → Option (Result T) → Result T
  panic_as_error none = error (message "interface conversion: interface is nil" [])
  panic_as_error (some r) = r

  abbrev pub go_codec : Codec
  go_codec = record {
    blob = Option g.bytes;
    encode = encode_value;
    encode_results = λ m. encode_value (g.box m);
    decode = λ b. panic_as_error (decode_value any_target b);
    decode_results = λ b. panic_as_error (decode_value results_target b);
  }

  unfoldable pub decode_payload : Option g.bytes → Result Value
  decode_payload none = value null
  decode_payload (some b) = g.decode_any b

  -- The functions of the queue, which keeps no results of steps.
  abbrev pub payload_codec : Codec
  payload_codec = record go_codec { decode = decode_payload }

  nil-reads_back :
      (row : Option g.bytes)
      → encode_value null ≡ value row
      → decode_value any_target row ≡ some (value null)
  unfolding encode_value decode_value
  nil-reads_back row encoded = ground (arith, encoded)

  -- Over a gob that reads back what it wrote, and on which a `map[int]any` can be taken out of an
  -- `any`, the codec of the stores decodes every value and all results of steps as they were.
  pub go_codec-IsFaithful : IsGob g → IsFaithful go_codec
  go_codec-IsFaithful gob = record {
    reads_back = λ v row encoded. elim (nil-cases v) [
      | inl e ↦ (let nothing = rw e at encoded in rw (e, nil-reads_back row nothing) refl)
      | inr (real, same) ↦
          rw (decode_value-encode_value any_target v v row gob real same encoded) refl
    ];
    results_read_back = λ m row encoded.
        rw
          (decode_value-encode_value results_target (g.box (some m)) (some m) row gob
            (gob.there (some m)) (gob.box-unbox (some m)) encoded)
          refl;
  }
