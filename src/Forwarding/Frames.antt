-- ===== src/Forwarding/Frames.antt =====
-- cqlparser.go: what is done with a request's frame decode context leaves the frame as it is.
use zdm_proxy.Prelude.{
  suc, length, ◌≡◌, refl, ◌∙◌, sym, ap, List, [], ◌∷◌, String, Result, ok, err, arith, inl, inr,
  Option-cases, Result-cases,
}
use zdm_proxy.Protocol.{OpCode, ProtocolVersions}
use zdm_proxy.RequestInfo.{RequestInfo}
use zdm_proxy.PreparedCache.{PreparedStatementCache}
use zdm_proxy.Messages.{
  Codec, Message, StatementQueryData, FrameDecodeContext, StatementReplacedTerms, RequestError,
  statement_count, get_or_decode_frame, inspect_statements, statements_of, get_or_inspect_statement,
  get_or_decode_and_inspect,
}
use zdm_proxy.Forwarding.Building.{
  Settings, build_request_info, build_by_op_code, build_query_info, build_prepare_info,
  build_batch_info, build_execute_info,
}

-- The statement of a context that has one.
abbrev the_statement :
    List StatementQueryData
    → FrameDecodeContext
    → Result RequestError (StatementQueryData × FrameDecodeContext)
the_statement ss d = elim ss [
  | s ∷ rest ↦ elim rest [
    | [] ↦ ok (s, d)
    | _ ∷ more ↦ err (statement_count (suc (suc (length more))))
  ]
  | [] ↦ err (statement_count 0)
]

module _ (versions : ProtocolVersions) (codec : Codec) where
  get_or_decode_keeps :
      (c : FrameDecodeContext) (m : Message) (c' : FrameDecodeContext)
      → get_or_decode_frame versions codec c ≡ ok (m, c')
      → c'.frame ≡ c.frame
  unfolding get_or_decode_frame
  get_or_decode_keeps c m c' h = elim (Option-cases c.decoded_frame) [
    | inr (d, e) ↦ ground (arith, e, h)
    | inl e ↦ elim (Option-cases (codec.decode c.frame)) [
      | inl n ↦ absurd (ground (arith, e, n, h))
      | inr (d, n) ↦ ground (arith, e, n, h)
    ]
  ]

  inspect_from :
      (before : List StatementQueryData) (current : String) (c c' : FrameDecodeContext)
      → c.statements_query_data ≡ before
      → inspect_statements versions codec current c ≡ ok c'
      → c'.frame ≡ c.frame
  unfolding inspect_statements
  inspect_from (s ∷ rest) current c c' same h = ground (arith, same, h)
  inspect_from [] current c c' same h = elim (Result-cases (get_or_decode_frame versions codec c)) [
    | inr (e, n) ↦ absurd (ground (arith, same, n, h))
    | inl ((m, d), n) ↦
        elim (Result-cases (statements_of versions codec c.frame.header.version m current)) [
          | inr (e, k) ↦ absurd (ground (arith, same, n, k, h))
          | inl (ss, k) ↦
              let kept = get_or_decode_keeps c m d n in ground (arith, same, n, k, h, kept)
        ]
  ]

  pub get_or_decode_and_inspect_keeps :
      (current : String) (c c' : FrameDecodeContext) (m : Message) (ss : List StatementQueryData)
      → get_or_decode_and_inspect versions codec current c ≡ ok (m, ss, c')
      → c'.frame ≡ c.frame
  unfolding get_or_decode_and_inspect
  get_or_decode_and_inspect_keeps current c c' m ss h =
      elim (Result-cases (get_or_decode_frame versions codec c)) [
        | inr (e, n) ↦ absurd (ground (arith, n, h))
        | inl ((m', d), n) ↦ elim (Result-cases (inspect_statements versions codec current d)) [
          | inr (e, k) ↦ absurd (ground (arith, n, k, h))
          | inl (d', k) ↦
              let same : d' ≡ c' = ground (arith, n, k, h) in
              sym (ap (λ (x : FrameDecodeContext). x.frame) same)
              ∙ (inspect_from d.statements_query_data current d d' refl k
                  ∙ get_or_decode_keeps c m' d n)
        ]
      ]

  one_statement :
      (ss : List StatementQueryData) (d c' : FrameDecodeContext) (s : StatementQueryData)
      → the_statement ss d ≡ ok (s, c')
      → d ≡ c'
  one_statement [] d c' s h = cc
  one_statement (t ∷ []) d c' s h = ground (arith, h)
  one_statement (t ∷ u ∷ more) d c' s h = cc

  get_or_inspect_keeps :
      (current : String) (c c' : FrameDecodeContext) (s : StatementQueryData)
      → get_or_inspect_statement versions codec current c ≡ ok (s, c')
      → c'.frame ≡ c.frame
  unfolding get_or_inspect_statement
  get_or_inspect_keeps current c c' s h =
      elim (Result-cases (inspect_statements versions codec current c)) [
        | inr (e, n) ↦ absurd (ground (arith, n, h))
        | inl (d, n) ↦
            let same : d ≡ c' =
              one_statement d.statements_query_data d c' s (ground (arith, n, h)) in
            sym (ap (λ (x : FrameDecodeContext). x.frame) same)
            ∙ inspect_from c.statements_query_data current c d refl n
      ]

  module _ (settings : Settings) (psc : PreparedStatementCache) where
    query_keeps :
        (current : String) (c c' : FrameDecodeContext) (info : RequestInfo)
        → build_query_info versions codec settings psc current c ≡ ok (info, c')
        → c'.frame ≡ c.frame
    unfolding build_query_info
    query_keeps current c c' info h =
        elim (Result-cases (get_or_inspect_statement versions codec current c)) [
          | inr (e, n) ↦ absurd (ground (arith, n, h))
          | inl ((s, d), n) ↦
              let kept = get_or_inspect_keeps current c d s n in ground (arith, n, h, kept)
        ]

    prepare_keeps :
        (replaced : List StatementReplacedTerms) (current : String) (c c' : FrameDecodeContext)
        (info : RequestInfo)
        → build_prepare_info versions codec settings psc replaced current c ≡ ok (info, c')
        → c'.frame ≡ c.frame
    unfolding build_prepare_info
    prepare_keeps replaced current c c' info h =
        elim (Result-cases (get_or_inspect_statement versions codec current c)) [
          | inr (e, n) ↦ absurd (ground (arith, n, h))
          | inl ((s, d), n) ↦ elim (Result-cases (get_or_decode_frame versions codec d)) [
            | inr (e, k) ↦ absurd (ground (arith, n, k, h))
            | inl ((m, d'), k) ↦
                let kept = get_or_inspect_keeps current c d s n in
                let kept' = get_or_decode_keeps d m d' k in ground (arith, n, k, h, kept, kept')
          ]
        ]

    batch_keeps :
        (c c' : FrameDecodeContext) (info : RequestInfo)
        → build_batch_info versions codec settings psc c ≡ ok (info, c')
        → c'.frame ≡ c.frame
    unfolding build_batch_info
    batch_keeps c c' info h = elim (Result-cases (get_or_decode_frame versions codec c)) [
      | inr (e, k) ↦ absurd (ground (arith, k, h))
      | inl ((m, d), k) ↦ let kept = get_or_decode_keeps c m d k in ground (arith, k, h, kept)
    ]

    execute_keeps :
        (c c' : FrameDecodeContext) (info : RequestInfo)
        → build_execute_info versions codec settings psc c ≡ ok (info, c')
        → c'.frame ≡ c.frame
    unfolding build_execute_info
    execute_keeps c c' info h = elim (Result-cases (get_or_decode_frame versions codec c)) [
      | inr (e, k) ↦ absurd (ground (arith, k, h))
      | inl ((m, d), k) ↦ let kept = get_or_decode_keeps c m d k in ground (arith, k, h, kept)
    ]

    by_op_code_keeps :
        (op : OpCode) (replaced : List StatementReplacedTerms) (current : String)
        (c c' : FrameDecodeContext) (info : RequestInfo)
        → build_by_op_code versions codec settings psc op replaced current c ≡ ok (info, c')
        → c'.frame ≡ c.frame
    by_op_code_keeps OpCode.query replaced current c c' info h = query_keeps current c c' info h
    by_op_code_keeps OpCode.prepare replaced current c c' info h =
        prepare_keeps replaced current c c' info h
    by_op_code_keeps OpCode.batch replaced current c c' info h = batch_keeps c c' info h
    by_op_code_keeps OpCode.execute replaced current c c' info h = execute_keeps c c' info h
    by_op_code_keeps _ replaced current c c' info h = ground (arith, h)

    -- The frame of a request info is the one that it is built of.
    pub build_request_info_keeps :
        (replaced : List StatementReplacedTerms) (current : String) (c c' : FrameDecodeContext)
        (info : RequestInfo)
        → build_request_info versions codec settings psc replaced current c ≡ ok (info, c')
        → c'.frame ≡ c.frame
    unfolding build_request_info
    build_request_info_keeps replaced current c c' info h =
        by_op_code_keeps c.frame.header.op_code replaced current c c' info h
