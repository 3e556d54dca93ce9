-- ===== src/Responses/Tests.antt =====
-- The aggregation of responses on small inputs.
use zdm_proxy.Prelude.{◌+◌, ◌≡◌, refl, ◌⊎◌, true, ◌&&◌, not, none, some, ok}
use zdm_proxy.Protocol.{ClusterType, origin, target, RawFrame}
use zdm_proxy.RequestInfo.{get_forward_decision, should_be_tracked_in_metrics}
use zdm_proxy.Samples.{
  result_frame, error_frame, query_frame, request_pointer, write_info, no_node_metrics,
}
use zdm_proxy.Requests.Context.{RequestContext, done, new_request_context, set_timeout}
use zdm_proxy.Requests.Outcome.{Inv, WaitsForClusters, response_of}
use zdm_proxy.Responses.{
  ProxyMetrics, is_response_successful, is_supported, is_prepare, aggregate_and_track_responses,
  compute_client_response,
}
use zdm_proxy.Responses.Aggregation.{
  failed_writes, one_if, answering_cluster, failure_wins, done_is_answered,
}

abbrev no_failures : ProxyMetrics
no_failures = record {
  failed_reads_origin = 0;
  failed_reads_target = 0;
  failed_writes_on_both = 0;
  failed_writes_on_origin = 0;
  failed_writes_on_target = 0;
}

failure_wins_example :
    let ((f, cluster), m') =
      aggregate_and_track_responses target write_info query_frame result_frame error_frame
        no_failures in
    (is_response_successful f
      ≡ (is_response_successful result_frame && is_response_successful error_frame))
    × (((f ≡ result_frame) × (cluster ≡ origin)) ⊎ ((f ≡ error_frame) × (cluster ≡ target)))
    × (cluster
        ≡ answering_cluster
            (is_response_successful result_frame)
            (is_response_successful error_frame)
            (is_supported result_frame.header.op_code)
            (is_prepare query_frame.header.op_code)
            target)
    × (failed_writes m'
        ≡ failed_writes no_failures
          + one_if (
              should_be_tracked_in_metrics write_info
              && not (is_response_successful result_frame && is_response_successful error_frame)))
failure_wins_example =
    failure_wins target write_info query_frame result_frame error_frame no_failures

write-WaitsForClusters : WaitsForClusters write_info
unfolding get_forward_decision
write-WaitsForClusters = (λ e. cc, λ e. cc)

abbrev finished_write : RequestContext
finished_write = record {
  request = some request_pointer;
  request_info = write_info;
  origin_response = some result_frame;
  target_response = some error_frame;
  state = done;
  timer = none;
}

finished_write-Inv : Inv finished_write
unfolding get_forward_decision
finished_write-Inv = record { complete = λ h. refl; waiting = λ h. absurd (cc) }

done_is_answered_example :
    (r : RawFrame × ClusterType) × ((compute_client_response origin target query_frame
        finished_write no_failures).0
      ≡ ok r)
    × (response_of r.1 finished_write ≡ some r.0)
done_is_answered_example =
    done_is_answered origin target query_frame finished_write no_failures write-WaitsForClusters
      finished_write-Inv refl

abbrev new_write : RequestContext
new_write = new_request_context request_pointer write_info

times_out_now : (set_timeout request_pointer (new_write, no_node_metrics)).2 ≡ true
unfolding set_timeout new_request_context
times_out_now = refl

new_write-WaitsForClusters : WaitsForClusters new_write.request_info
unfolding get_forward_decision new_request_context
new_write-WaitsForClusters = (λ e. cc, λ e. cc)
