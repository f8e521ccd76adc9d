-- ===== src/Tests/Wire.antt =====
-- pkg/message/wire.go and pkg/config at concrete inputs.
use golinker.Base.{ℕ, zero, suc, ◌≡◌, ◌↔◌, refl, none, some, List, [], ◌∷◌, ◌++◌, arith, drop}
use golinker.Config.{loaded, default_config, load_from_file, validate, check_sizes, check_times}
use golinker.Config.Valid.{SizesValid, TimesValid, validate_iff}
use golinker.Errors.{ok, Returns, ◌>>=◌}
use golinker.Go.Slice.{write_at}
use golinker.Message.Bytes.{put_uint32, put_uint64}
use golinker.Message.Parse.{unpack_batch-Returns, unpack_batch-exact}
use golinker.Message.Encoding.{encoding, pack_batch-eq-encoding}
use golinker.Message.RoundTrip.{unpack_batch-pack_batch, unpack_batch-encoding}
use golinker.Message.Wire.{
  encode_cmd_header, encode_app_header, pack_messages, pack_batch, unpack_batch, batch_size,
}

abbrev pub zeros : ℕ → List ℕ
zeros zero = []
zeros (suc n) = 0 ∷ zeros n

abbrev pub two_messages : List (List ℕ)
two_messages = (104 ∷ 105 ∷ []) ∷ (33 ∷ []) ∷ []

abbrev garbage : List ℕ
garbage = 0 ∷ 0 ∷ 0 ∷ 230 ∷ zeros 16

unpack_batch-pack_batch_example :
    (pack_batch 7 (zeros 64) two_messages >>= λ r. unpack_batch r.0 r.1) ≡ ok two_messages
unpack_batch-pack_batch_example =
    unpack_batch-pack_batch 7 two_messages (zeros 64) (omega arith) (omega arith, (omega arith, tt))

pack_batch-eq-encoding_example :
    pack_batch 7 (zeros 64) two_messages ≡ ok (encoding 7 two_messages ++ drop 39 (zeros 64), 39)
pack_batch-eq-encoding_example = pack_batch-eq-encoding 7 two_messages (zeros 64) (omega arith)

unpack_batch-Returns_example : Returns (unpack_batch garbage 20)
unpack_batch-Returns_example = unpack_batch-Returns garbage 20 (omega arith)

unpack_batch-exact_example : batch_size two_messages ≡ 39
unpack_batch-exact_example =
    unpack_batch-exact (encoding 7 two_messages ++ drop 39 (zeros 64)) 39 two_messages (omega arith)
      (unpack_batch-encoding 7 two_messages (drop 39 (zeros 64)) (omega arith, (omega arith, tt)))

abbrev cut_off : List ℕ
cut_off = 0 ∷ 0 ∷ 0 ∷ 230 ∷ (zeros 15 ++ 7 ∷ 0 ∷ 0 ∷ 0 ∷ 2 ∷ 104 ∷ [])

overrun : pack_batch 7 (zeros 25) ((104 ∷ 105 ∷ []) ∷ []) ≡ ok (cut_off, 26)
unfolding pack_batch pack_messages encode_cmd_header encode_app_header put_uint32 put_uint64
    write_at
overrun = refl

accepted : load_from_file (λ bytes c. some c) (some []) ≡ loaded default_config
unfolding load_from_file validate check_sizes check_times default_config
accepted = refl

validate_iff_example :
    (validate default_config ≡ none) ↔ (SizesValid default_config × TimesValid default_config)
validate_iff_example = validate_iff default_config
