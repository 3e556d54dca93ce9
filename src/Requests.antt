-- ===== src/Requests.antt =====
-- proxy/pkg/zdmproxy/requestcontext.go and pendingrequests.go: the state of a request between the
-- moment it is forwarded and its one outcome.
pub mod Context
pub mod Outcome
pub mod Answers
pub mod Finishing
pub mod Pending
pub mod Slots
pub mod Waiting
mod Tests
