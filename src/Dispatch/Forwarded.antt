-- ===== src/Dispatch/Forwarded.antt =====
-- clienthandler.go: what forwardRequest leaves of a client's frame.
use zdm_proxy.Prelude.{
  ℕ, ◌≡◌, refl, ◌∙◌, ap, ◌⊎◌, inl, inr, Bool, true, false, Option, none, some, List, [], ◌∷◌, ◌++◌,
  String, Result, ok, err, arith, Bool-cases, int_eq, nat_eq, bytes_eq,
}
use zdm_proxy.Protocol.{RawFrame, Header, OpCode, to_none, decision_beq}
use zdm_proxy.RequestInfo.{RequestInfo, get_forward_decision}
use zdm_proxy.PreparedCache.{get}
use zdm_proxy.Messages.{
  Message, ExecuteMessage, FrameDecodeContext, StatementReplacedTerms, RequestError, decode_failed,
  not_inspectable, unexpected_message, statement_count, replaced_terms_count, unprepared,
  new_frame_decode_context, get_or_decode_frame, inspect_statements, statements_of,
  get_or_decode_and_inspect,
}
use zdm_proxy.QueryModifier.{ModifierError, replace_query_string}
use zdm_proxy.QueryModifier.Headers.{replace_query_string_keeps}
use zdm_proxy.Forwarding.Building.{build_request_info, build_execute_info, get_prepared_data}
use zdm_proxy.Forwarding.Frames.{build_request_info_keeps}
use zdm_proxy.Requests.Context.{FramePointer}
use zdm_proxy.Handler.{load_current_keyspace}
use zdm_proxy.Dispatch.{Setting, ClientHandler, RequestFailure, execute_request}
use zdm_proxy.Dispatch.Stored.{
  IsUnsent, IsAnswered, IsStored, LeavesDone, Leaves, sent_or_untouched,
}
use zdm_proxy.Dispatch.Forward.{
  Inspection, ForwardFailure, after_unprepared, after_execution, message_of, settings, next_text,
  modified_request, after_info, after_modified, forward_request,
}

module _ {S A G : Type 0} (ctx : ℕ) (f : RawFrame) (ch : ClientHandler S A G) where
  -- The request waits, with a frame that has the header of the client's.
  abbrev pub IsWaiting : ClientHandler S A G → Type 0
  IsWaiting ch' =
      (req : FramePointer) × (info : RequestInfo) × (req.frame.header ≡ f.header)
      × IsStored ch ctx req info ch'

  -- What forwardRequest leaves, by whether it failed.
  abbrev pub Forwards : Option ForwardFailure → ClientHandler S A G → Type 0
  Forwards (some e) ch' = IsUnsent ch ch' × (ch'.client_responses ≡ ch.client_responses)
  Forwards none ch' = IsAnswered ch ch' ⊎ IsWaiting ch'

  done-Forwards :
      (b : Bool) (req : FramePointer) (info : RequestInfo) (ch' : ClientHandler S A G)
      → req.frame.header ≡ f.header
      → LeavesDone ctx req info ch b ch'
      → Forwards none ch'
  done-Forwards true req info ch' same left = inl left
  done-Forwards false req info ch' same left = inr (req, info, same, left)

  after_execution-Forwards :
      (req : FramePointer) (info : RequestInfo) (r : ClientHandler S A G × Option RequestFailure)
      → req.frame.header ≡ f.header
      → Leaves ctx req info ch r.1 r.0
      → Forwards (after_execution r).1 (after_execution r).0
  after_execution-Forwards req info (ch', none) same left =
      done-Forwards (decision_beq (get_forward_decision info) to_none) req info ch' same left
  after_execution-Forwards req info (ch', some e) same left = left

  unprepared-Forwards :
      (o : Option RawFrame) (s : G)
      → let (ch', failure) = after_unprepared o (record ch { generator = s }) in
        Forwards failure ch'
  unprepared-Forwards none s = ((refl, refl), refl)
  unprepared-Forwards (some g) s = inl ((refl, refl), refl, refl, (g, refl))

  module _ (env : Setting S A G) (inspection : Inspection)
      (keeps : (h : Header) (m : Message) (g : RawFrame)
        → inspection.encode_frame h m ≡ some g
        → g.header ≡ h) where
    open inspection use {
      versions, codec, encode_frame, convert_unprepared, bytes, replace_cql_functions,
    }

    info-Forwards :
        (address : ℕ) (keyspace : String) (g : RawFrame)
        (r : Result RequestError (RequestInfo × FrameDecodeContext)) (s : G)
        → ((info : RequestInfo) (c : FrameDecodeContext)
            → r ≡ ok (info, c)
            → c.frame.header ≡ f.header)
        → let (ch', failure) =
            after_info env inspection ctx address keyspace g r (record ch { generator = s }) in
          Forwards failure ch'
    info-Forwards address keyspace g (err (unprepared id)) s same =
        unprepared-Forwards (convert_unprepared g id) s
    info-Forwards address keyspace g (err decode_failed) s same = ((refl, refl), refl)
    info-Forwards address keyspace g (err not_inspectable) s same = ((refl, refl), refl)
    info-Forwards address keyspace g (err unexpected_message) s same = ((refl, refl), refl)
    info-Forwards address keyspace g (err (statement_count n)) s same = ((refl, refl), refl)
    info-Forwards address keyspace g (err (replaced_terms_count n)) s same = ((refl, refl), refl)
    info-Forwards address keyspace g (ok (info, c)) s same =
        let req : FramePointer = record { address = address; frame = c.frame } in
        after_execution-Forwards req info
          (execute_request env ctx req info (message_of c) keyspace (record ch { generator = s }))
          (same info c refl)
          (sent_or_untouched ctx req info (record ch { generator = s }) env (message_of c) keyspace)

    modified_keeps :
        (keyspace : String) (c : FrameDecodeContext) (replaced : List StatementReplacedTerms)
        (s : G)
        → (modified_request env inspection keyspace (new_frame_decode_context f) s).1
          ≡ ok (c, replaced)
        → c.frame.header ≡ f.header
    unfolding modified_request new_frame_decode_context
    modified_keeps keyspace c replaced s h = elim (Bool-cases replace_cql_functions) [
      | inl on ↦
          replace_query_string_keeps bytes (next_text env inspection) versions codec encode_frame
            keeps keyspace (new_frame_decode_context f) c replaced s (ground (arith, on, h))
      | inr off ↦ ground (arith, off, h)
    ]

    modified_request-Forwards :
        (address : ℕ) (keyspace : String)
        (r : Result ModifierError (FrameDecodeContext × List StatementReplacedTerms)) (s : G)
        → ((c : FrameDecodeContext) (replaced : List StatementReplacedTerms)
            → r ≡ ok (c, replaced)
            → c.frame.header ≡ f.header)
        → let (ch', failure) =
            after_modified env inspection ctx address keyspace r (record ch { generator = s }) in
          Forwards failure ch'
    modified_request-Forwards address keyspace (err e) s same = ((refl, refl), refl)
    modified_request-Forwards address keyspace (ok (c, replaced)) s same =
        let psc = ch.table.handler.prepared_statement_cache in
        let built =
          build_request_info versions codec (settings env inspection) psc replaced keyspace c in
        info-Forwards address keyspace c.frame built s (λ info d h.
          ap (λ (g : RawFrame). g.header)
            (build_request_info_keeps versions codec (settings env inspection) psc replaced keyspace
              c d info h)
          ∙ same c replaced refl)

    -- If the encoder keeps the header of a frame: a request that fails has sent nothing, to a connector or
    -- to the client. If it does not fail, either the proxy has answered it with one response, has sent
    -- nothing to a connector and stored nothing; or the holder of its stream id was empty and has its
    -- context now, which is new and waits with its timer.
    pub forwarded_or_untouched :
        (address : ℕ)
        → let (ch', failure) = forward_request env inspection ctx address f ch in
          Forwards failure ch'
    unfolding forward_request
    forwarded_or_untouched address =
        let keyspace = load_current_keyspace ch.table.handler in
        let (s, r) =
          modified_request env inspection keyspace (new_frame_decode_context f) ch.generator in
        modified_request-Forwards address keyspace r s
          (λ c replaced h. modified_keeps keyspace c replaced ch.generator h)

module _ {S A G : Type 0} (ctx address : ℕ) (f : RawFrame) (e : ExecuteMessage)
    (ch : ClientHandler S A G) (env : Setting S A G) (inspection : Inspection)
    (is_execute : f.header.op_code ≡ OpCode.execute)
    (decodes : inspection.codec.decode f ≡ some (Message.execute e))
    (unknown : get e.query_id ch.table.handler.prepared_statement_cache ≡ none) where
  open inspection use {versions, codec, convert_unprepared}

  not_rewritten :
      (keyspace : String)
      → modified_request env inspection keyspace (new_frame_decode_context f) ch.generator
        ≡ (ch.generator, ok (new_frame_decode_context f, []))
  unfolding modified_request replace_query_string get_or_decode_and_inspect inspect_statements
      statements_of get_or_decode_frame new_frame_decode_context
  not_rewritten keyspace = ground (arith, decodes)

  not_known :
      (keyspace : String)
      → build_request_info versions codec
          (settings env inspection)
          ch.table.handler.prepared_statement_cache
          []
          keyspace
          (new_frame_decode_context f)
        ≡ err (unprepared e.query_id)
  unfolding build_request_info build_execute_info get_prepared_data get_or_decode_frame
      new_frame_decode_context
  not_known keyspace = ground (arith, decodes, is_execute, unknown)

  -- An EXECUTE of a statement that the cache does not know, whose UNPREPARED response can be encoded:
  -- that response goes to the client, with the id of the EXECUTE, and nothing else changes.
  pub unknown_statement_answered :
      (g : RawFrame)
      → convert_unprepared f e.query_id ≡ some g
      → forward_request env inspection ctx address f ch
        ≡ (record ch { client_responses = ch.client_responses ++ (g ∷ []) }, none)
  unfolding forward_request new_frame_decode_context
  unknown_statement_answered g encoded =
      let keyspace = load_current_keyspace ch.table.handler in
      ground (arith, not_rewritten keyspace, not_known keyspace, encoded)
