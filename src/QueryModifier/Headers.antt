-- ===== src/QueryModifier/Headers.antt =====
-- querymodifier.go: the new frame of a request has the header of the old one.
use zdm_proxy.Prelude.{
  ℕ, ◌≡◌, sym, ap, Option, some, List, String, ok, arith, inl, inr, Option-cases, Result-cases,
}
use zdm_proxy.Protocol.{RawFrame, Header, ProtocolVersions}
use zdm_proxy.Messages.{
  Codec, Message, FrameDecodeContext, StatementReplacedTerms, RequestError, not_inspectable,
  get_or_decode_and_inspect,
}
use zdm_proxy.QueryModifier.{replace_query_string, by_op_code, inspection_failed}

module _ {S : Type 0} (bytes : String → List ℕ) (get_time_uuid : S → String × S)
    (versions : ProtocolVersions) (codec : Codec) (encode : Header → Message → Option RawFrame)
    (keeps : (h : Header) (m : Message) (f : RawFrame) → encode h m ≡ some f → f.header ≡ h) where
  failed_keeps :
      (e : RequestError) (c c' : FrameDecodeContext) (r : List StatementReplacedTerms)
      → inspection_failed bytes get_time_uuid c e ≡ ok (c', r)
      → c ≡ c'
  failed_keeps not_inspectable c c' r h = ground (arith, h)
  failed_keeps _ c c' r h = cc

  -- If the encoder keeps headers, then so does the replacement of the calls of now().
  pub replace_query_string_keeps :
      (current : String) (c c' : FrameDecodeContext) (r : List StatementReplacedTerms) (s : S)
      → (replace_query_string bytes get_time_uuid versions codec encode current c s).1 ≡ ok (c', r)
      → c'.frame.header ≡ c.frame.header
  unfolding replace_query_string
  replace_query_string_keeps current c c' r s h =
      elim (Result-cases (get_or_decode_and_inspect versions codec current c)) [
        | inr (e, n) ↦ sym (
            ap (λ (x : FrameDecodeContext). x.frame.header)
              (failed_keeps e c c' r (ground (arith, n, h))))
        | inl ((m, statements, d), n) ↦
            elim (Result-cases
              (by_op_code bytes get_time_uuid c.frame.header.op_code m statements s).1) [
                | inr (e, k) ↦ absurd (ground (arith, n, k, h))
                | inl ((m', rs, ss), k) ↦ elim (Option-cases (encode c.frame.header m')) [
                  | inl o ↦ absurd (ground (arith, n, k, o, h))
                  | inr (f, o) ↦
                      let same = keeps c.frame.header m' f o in ground (arith, n, k, o, h, same)
                ]
              ]
      ]
