-- ===== src/ControlPlane/Dispatch.antt =====
-- upf-edge/src/handle_msg.rs: `handle_message`. The check of mandatory IEs is only logged there.
use upf_edge.Prelude.{◌%◌, [], if◌then◌else◌, ◌==◌}
use upf_edge.Bytes.{Bytes}
use upf_edge.Pfcp.Header.{PfcpHeader, decode}
use upf_edge.Pfcp.Types.{
  pfcp_heartbeat_req, pfcp_association_setup_req, pfcp_session_establishment_req,
  pfcp_session_modification_req, pfcp_session_deletion_req, pfcp_session_report_rsp,
}
use upf_edge.ControlPlane.{
  SocketAddr, Env, Handler, bad_header, unhandled_type, ◌>>=◌, return, raise, from_outcome,
}
use upf_edge.ControlPlane.Node.{handle_heartbeat, handle_session_association}
use upf_edge.ControlPlane.Establish.{handle_session_establishment}
use upf_edge.ControlPlane.Modify.{handle_session_modification}
use upf_edge.ControlPlane.Delete.{handle_session_deletion}

unfoldable pub dispatch : Env → PfcpHeader → Bytes → SocketAddr → Handler Bytes
dispatch env header body src =
    if header.msg_type == pfcp_heartbeat_req
    then handle_heartbeat env header body src
    else if header.msg_type == pfcp_association_setup_req
    then handle_session_association env header body src
    else if header.msg_type == pfcp_session_establishment_req
    then handle_session_establishment env header body src
    else if header.msg_type == pfcp_session_modification_req
    then handle_session_modification env header body src
    else if header.msg_type == pfcp_session_deletion_req
    then handle_session_deletion header src
    else if header.msg_type == pfcp_session_report_rsp
    then return []
    else if header.msg_type % 2 == 0
    then return []
    else raise (unhandled_type header.msg_type)

unfoldable pub handle_message : Env → Bytes → SocketAddr → Handler Bytes
unfolding dispatch
handle_message env packet src = do
  decoded ← from_outcome bad_header (decode packet)
  dispatch env decoded.0 decoded.1 src
