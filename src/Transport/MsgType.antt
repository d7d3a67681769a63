-- ===== src/Transport/MsgType.antt =====
-- The kinds of message of src/transport/codec.rs: their byte on the wire, their limits and lanes.
use dal_service.Prelude.{
  ℕ, ◌+◌, ◌*◌, ◌≤◌, ◌≡◌, refl, Bool, true, false, Option, none, some, arith, ◌==◌, nat_eq,
  if◌then◌else◌,
}
use dal_service.Config.{max_routing_payload_bytes}
use dal_service.Types.{max_value_bytes}
use dal_service.Search.Definition.{
  search_max_definition_bytes, search_max_indexes, search_max_catalog_bytes,
}

abbrev pub header_len : ℕ
header_len = 36

abbrev pub kib : ℕ
kib = 1024

abbrev pub mib : ℕ
mib = 1024 * kib

abbrev search_max_frame_bytes : ℕ
search_max_frame_bytes = 32 * 1024 * 1024

abbrev search_max_catalog_frame_bytes : ℕ
search_max_catalog_frame_bytes = search_max_indexes * search_max_catalog_bytes + 64 * 1024

abbrev pub max_control_frame_bytes : ℕ
max_control_frame_bytes = 64 * mib + header_len

abbrev pub max_bulk_frame_bytes : ℕ
max_bulk_frame_bytes = 256 * mib + header_len

pub data Lane : Type 0 where
  control bulk : Lane

abbrev pub max_frame_bytes : Lane → ℕ
max_frame_bytes Lane.control = max_control_frame_bytes
max_frame_bytes Lane.bulk = max_bulk_frame_bytes

pub data MsgType : Type 0 where
  client_op : MsgType
  raft_append : MsgType
  raft_vote : MsgType
  raft_snapshot : MsgType
  migration_chunk : MsgType
  meta_query : MsgType
  redirect : MsgType
  heartbeat : MsgType
  become_learner : MsgType
  data_config_observation : MsgType
  join_request : MsgType
  leave_request : MsgType
  abort_plan_request : MsgType
  bootstrap_status : MsgType
  placement_query : MsgType
  directory_query : MsgType
  data_recovery_fence : MsgType
  search_op : MsgType
  search_prepare : MsgType
  search_execute : MsgType
  search_index_status : MsgType
  search_catalog_query : MsgType
  search_index_admin : MsgType
  transfer_leadership : MsgType
  maintenance_query : MsgType
  maintenance_ack : MsgType
  maintenance_status : MsgType
  maintenance_recovery_ack : MsgType
  maintenance_release : MsgType
  maintenance_begin : MsgType
  maintenance_quiesce : MsgType
  maintenance_verify : MsgType
  sequence_inspect : MsgType

-- `as u8`.
unfoldable pub as_u8 : MsgType → ℕ
as_u8 MsgType.client_op = 0
as_u8 MsgType.raft_append = 1
as_u8 MsgType.raft_vote = 2
as_u8 MsgType.raft_snapshot = 3
as_u8 MsgType.migration_chunk = 4
as_u8 MsgType.meta_query = 5
as_u8 MsgType.redirect = 6
as_u8 MsgType.heartbeat = 7
as_u8 MsgType.become_learner = 8
as_u8 MsgType.data_config_observation = 9
as_u8 MsgType.join_request = 10
as_u8 MsgType.leave_request = 11
as_u8 MsgType.abort_plan_request = 12
as_u8 MsgType.bootstrap_status = 13
as_u8 MsgType.placement_query = 14
as_u8 MsgType.directory_query = 15
as_u8 MsgType.data_recovery_fence = 16
as_u8 MsgType.search_op = 17
as_u8 MsgType.search_prepare = 18
as_u8 MsgType.search_execute = 19
as_u8 MsgType.search_index_status = 20
as_u8 MsgType.search_catalog_query = 21
as_u8 MsgType.search_index_admin = 22
as_u8 MsgType.transfer_leadership = 23
as_u8 MsgType.maintenance_query = 24
as_u8 MsgType.maintenance_ack = 25
as_u8 MsgType.maintenance_status = 26
as_u8 MsgType.maintenance_recovery_ack = 27
as_u8 MsgType.maintenance_release = 28
as_u8 MsgType.maintenance_begin = 29
as_u8 MsgType.maintenance_quiesce = 30
as_u8 MsgType.maintenance_verify = 31
as_u8 MsgType.sequence_inspect = 32

unfoldable pub from_u8 : ℕ → Option MsgType
from_u8 v =
    if v == 0
    then some MsgType.client_op
    else if v == 1
    then some MsgType.raft_append
    else if v == 2
    then some MsgType.raft_vote
    else if v == 3
    then some MsgType.raft_snapshot
    else if v == 4
    then some MsgType.migration_chunk
    else if v == 5
    then some MsgType.meta_query
    else if v == 6
    then some MsgType.redirect
    else if v == 7
    then some MsgType.heartbeat
    else if v == 8
    then some MsgType.become_learner
    else if v == 9
    then some MsgType.data_config_observation
    else if v == 10
    then some MsgType.join_request
    else if v == 11
    then some MsgType.leave_request
    else if v == 12
    then some MsgType.abort_plan_request
    else if v == 13
    then some MsgType.bootstrap_status
    else if v == 14
    then some MsgType.placement_query
    else if v == 15
    then some MsgType.directory_query
    else if v == 16
    then some MsgType.data_recovery_fence
    else if v == 17
    then some MsgType.search_op
    else if v == 18
    then some MsgType.search_prepare
    else if v == 19
    then some MsgType.search_execute
    else if v == 20
    then some MsgType.search_index_status
    else if v == 21
    then some MsgType.search_catalog_query
    else if v == 22
    then some MsgType.search_index_admin
    else if v == 23
    then some MsgType.transfer_leadership
    else if v == 24
    then some MsgType.maintenance_query
    else if v == 25
    then some MsgType.maintenance_ack
    else if v == 26
    then some MsgType.maintenance_status
    else if v == 27
    then some MsgType.maintenance_recovery_ack
    else if v == 28
    then some MsgType.maintenance_release
    else if v == 29
    then some MsgType.maintenance_begin
    else if v == 30
    then some MsgType.maintenance_quiesce
    else if v == 31
    then some MsgType.maintenance_verify
    else if v == 32
    then some MsgType.sequence_inspect
    else none

unfoldable pub max_payload : MsgType → ℕ
max_payload MsgType.client_op = max_value_bytes + 64 * kib
max_payload MsgType.raft_append = 64 * mib
max_payload MsgType.raft_vote = 4 * kib
max_payload MsgType.raft_snapshot = 256 * mib
max_payload MsgType.migration_chunk = 256 * mib
max_payload MsgType.meta_query = max_routing_payload_bytes
max_payload MsgType.redirect = 64 * kib
max_payload MsgType.heartbeat = 4 * kib
max_payload MsgType.become_learner = 4 * kib
max_payload MsgType.data_config_observation = 4 * kib
max_payload MsgType.join_request = 4 * kib
max_payload MsgType.leave_request = 4 * kib
max_payload MsgType.abort_plan_request = 4 * kib
max_payload MsgType.bootstrap_status = 4 * kib
max_payload MsgType.placement_query = 4 * kib
max_payload MsgType.directory_query = 4 * mib
max_payload MsgType.data_recovery_fence = 4 * kib
max_payload MsgType.search_op = search_max_frame_bytes
max_payload MsgType.search_prepare = 64 * kib
max_payload MsgType.search_execute = search_max_frame_bytes
max_payload MsgType.search_index_status = 64 * kib
max_payload MsgType.search_catalog_query = search_max_catalog_frame_bytes
max_payload MsgType.search_index_admin = search_max_definition_bytes + 4 * kib
max_payload MsgType.transfer_leadership = 4 * kib
max_payload MsgType.maintenance_query = 64 * kib
max_payload MsgType.maintenance_ack = 4 * kib
max_payload MsgType.maintenance_status = 64 * kib
max_payload MsgType.maintenance_recovery_ack = 4 * kib
max_payload MsgType.maintenance_release = 4 * kib
max_payload MsgType.maintenance_begin = 4 * kib
max_payload MsgType.maintenance_quiesce = 4 * kib
max_payload MsgType.maintenance_verify = 4 * kib
max_payload MsgType.sequence_inspect = 4 * kib

unfoldable pub is_bulk : MsgType → Bool
is_bulk MsgType.raft_snapshot = true
is_bulk MsgType.migration_chunk = true
is_bulk _ = false

-- The lane that carries a kind of message.
abbrev pub lane_of : MsgType → Lane
lane_of msg_type = if is_bulk msg_type then Lane.bulk else Lane.control

-- A kind is read back from its byte.
pub from_u8-as_u8 : (m : MsgType) → from_u8 (as_u8 m) ≡ some m
unfolding from_u8 as_u8
from_u8-as_u8 MsgType.client_op = refl
from_u8-as_u8 MsgType.raft_append = refl
from_u8-as_u8 MsgType.raft_vote = refl
from_u8-as_u8 MsgType.raft_snapshot = refl
from_u8-as_u8 MsgType.migration_chunk = refl
from_u8-as_u8 MsgType.meta_query = refl
from_u8-as_u8 MsgType.redirect = refl
from_u8-as_u8 MsgType.heartbeat = refl
from_u8-as_u8 MsgType.become_learner = refl
from_u8-as_u8 MsgType.data_config_observation = refl
from_u8-as_u8 MsgType.join_request = refl
from_u8-as_u8 MsgType.leave_request = refl
from_u8-as_u8 MsgType.abort_plan_request = refl
from_u8-as_u8 MsgType.bootstrap_status = refl
from_u8-as_u8 MsgType.placement_query = refl
from_u8-as_u8 MsgType.directory_query = refl
from_u8-as_u8 MsgType.data_recovery_fence = refl
from_u8-as_u8 MsgType.search_op = refl
from_u8-as_u8 MsgType.search_prepare = refl
from_u8-as_u8 MsgType.search_execute = refl
from_u8-as_u8 MsgType.search_index_status = refl
from_u8-as_u8 MsgType.search_catalog_query = refl
from_u8-as_u8 MsgType.search_index_admin = refl
from_u8-as_u8 MsgType.transfer_leadership = refl
from_u8-as_u8 MsgType.maintenance_query = refl
from_u8-as_u8 MsgType.maintenance_ack = refl
from_u8-as_u8 MsgType.maintenance_status = refl
from_u8-as_u8 MsgType.maintenance_recovery_ack = refl
from_u8-as_u8 MsgType.maintenance_release = refl
from_u8-as_u8 MsgType.maintenance_begin = refl
from_u8-as_u8 MsgType.maintenance_quiesce = refl
from_u8-as_u8 MsgType.maintenance_verify = refl
from_u8-as_u8 MsgType.sequence_inspect = refl

-- The longest frame of a kind fits its lane.
pub max_payload-max_frame_bytes :
    (m : MsgType) → header_len + max_payload m ≤ max_frame_bytes (lane_of m)
unfolding max_payload is_bulk
max_payload-max_frame_bytes MsgType.client_op = omega arith
max_payload-max_frame_bytes MsgType.raft_append = omega arith
max_payload-max_frame_bytes MsgType.raft_vote = omega arith
max_payload-max_frame_bytes MsgType.raft_snapshot = omega arith
max_payload-max_frame_bytes MsgType.migration_chunk = omega arith
max_payload-max_frame_bytes MsgType.meta_query = omega arith
max_payload-max_frame_bytes MsgType.redirect = omega arith
max_payload-max_frame_bytes MsgType.heartbeat = omega arith
max_payload-max_frame_bytes MsgType.become_learner = omega arith
max_payload-max_frame_bytes MsgType.data_config_observation = omega arith
max_payload-max_frame_bytes MsgType.join_request = omega arith
max_payload-max_frame_bytes MsgType.leave_request = omega arith
max_payload-max_frame_bytes MsgType.abort_plan_request = omega arith
max_payload-max_frame_bytes MsgType.bootstrap_status = omega arith
max_payload-max_frame_bytes MsgType.placement_query = omega arith
max_payload-max_frame_bytes MsgType.directory_query = omega arith
max_payload-max_frame_bytes MsgType.data_recovery_fence = omega arith
max_payload-max_frame_bytes MsgType.search_op = omega arith
max_payload-max_frame_bytes MsgType.search_prepare = omega arith
max_payload-max_frame_bytes MsgType.search_execute = omega arith
max_payload-max_frame_bytes MsgType.search_index_status = omega arith
max_payload-max_frame_bytes MsgType.search_catalog_query = omega arith
max_payload-max_frame_bytes MsgType.search_index_admin = omega arith
max_payload-max_frame_bytes MsgType.transfer_leadership = omega arith
max_payload-max_frame_bytes MsgType.maintenance_query = omega arith
max_payload-max_frame_bytes MsgType.maintenance_ack = omega arith
max_payload-max_frame_bytes MsgType.maintenance_status = omega arith
max_payload-max_frame_bytes MsgType.maintenance_recovery_ack = omega arith
max_payload-max_frame_bytes MsgType.maintenance_release = omega arith
max_payload-max_frame_bytes MsgType.maintenance_begin = omega arith
max_payload-max_frame_bytes MsgType.maintenance_quiesce = omega arith
max_payload-max_frame_bytes MsgType.maintenance_verify = omega arith
max_payload-max_frame_bytes MsgType.sequence_inspect = omega arith
