-- ===== src/Pfcp/Types.antt =====
-- pfcp-common/src/types.rs: message types, IE types, causes and flag bits that the code uses.
use upf_edge.Prelude.{ℕ, Bool, ◌||◌, ◌==◌}

abbrev pub interface_access : ℕ
interface_access = 0

abbrev pub interface_core : ℕ
interface_core = 1

abbrev pub action_drop : ℕ
action_drop = 0x01

abbrev pub action_forw : ℕ
action_forw = 0x02

abbrev pub report_type_usar : ℕ
report_type_usar = 0x02

abbrev pub usage_report_trigger_perio : ℕ
usage_report_trigger_perio = 0x01

abbrev pub usage_report_trigger_volth : ℕ
usage_report_trigger_volth = 0x02

abbrev pub volume_measurement_tovol : ℕ
volume_measurement_tovol = 0x01

abbrev pub volume_measurement_ulvol : ℕ
volume_measurement_ulvol = 0x02

abbrev pub volume_measurement_dlvol : ℕ
volume_measurement_dlvol = 0x04

abbrev pub pfcp_heartbeat_req : ℕ
pfcp_heartbeat_req = 1

abbrev pub pfcp_heartbeat_rsp : ℕ
pfcp_heartbeat_rsp = 2

abbrev pub pfcp_association_setup_req : ℕ
pfcp_association_setup_req = 5

abbrev pub pfcp_association_setup_rsp : ℕ
pfcp_association_setup_rsp = 6

abbrev pub pfcp_session_establishment_req : ℕ
pfcp_session_establishment_req = 50

abbrev pub pfcp_session_establishment_rsp : ℕ
pfcp_session_establishment_rsp = 51

abbrev pub pfcp_session_modification_req : ℕ
pfcp_session_modification_req = 52

abbrev pub pfcp_session_modification_rsp : ℕ
pfcp_session_modification_rsp = 53

abbrev pub pfcp_session_deletion_req : ℕ
pfcp_session_deletion_req = 54

abbrev pub pfcp_session_deletion_rsp : ℕ
pfcp_session_deletion_rsp = 55

abbrev pub pfcp_session_report_req : ℕ
pfcp_session_report_req = 56

abbrev pub pfcp_session_report_rsp : ℕ
pfcp_session_report_rsp = 57

abbrev pub pfcp_ie_create_pdr : ℕ
pfcp_ie_create_pdr = 1

abbrev pub pfcp_ie_pdi : ℕ
pfcp_ie_pdi = 2

abbrev pub pfcp_ie_create_far : ℕ
pfcp_ie_create_far = 3

abbrev pub pfcp_ie_forwarding_parameters : ℕ
pfcp_ie_forwarding_parameters = 4

abbrev pub pfcp_ie_create_urr : ℕ
pfcp_ie_create_urr = 6

abbrev pub pfcp_ie_create_qer : ℕ
pfcp_ie_create_qer = 7

abbrev pub pfcp_ie_created_pdr : ℕ
pfcp_ie_created_pdr = 8

abbrev pub pfcp_ie_update_pdr : ℕ
pfcp_ie_update_pdr = 9

abbrev pub pfcp_ie_update_far : ℕ
pfcp_ie_update_far = 10

abbrev pub pfcp_ie_update_forwarding_parameters : ℕ
pfcp_ie_update_forwarding_parameters = 11

abbrev pub pfcp_ie_update_urr : ℕ
pfcp_ie_update_urr = 13

abbrev pub pfcp_ie_remove_pdr : ℕ
pfcp_ie_remove_pdr = 15

abbrev pub pfcp_ie_remove_far : ℕ
pfcp_ie_remove_far = 16

abbrev pub pfcp_ie_cause : ℕ
pfcp_ie_cause = 19

abbrev pub pfcp_ie_source_interface : ℕ
pfcp_ie_source_interface = 20

abbrev pub pfcp_ie_fteid : ℕ
pfcp_ie_fteid = 21

abbrev pub pfcp_ie_sdf_filter : ℕ
pfcp_ie_sdf_filter = 23

abbrev pub pfcp_ie_precedence : ℕ
pfcp_ie_precedence = 29

abbrev pub pfcp_ie_volume_threshold : ℕ
pfcp_ie_volume_threshold = 31

abbrev pub pfcp_ie_reporting_triggers : ℕ
pfcp_ie_reporting_triggers = 37

abbrev pub pfcp_ie_report_type : ℕ
pfcp_ie_report_type = 39

abbrev pub pfcp_ie_destination_interface : ℕ
pfcp_ie_destination_interface = 42

abbrev pub pfcp_ie_up_function_features : ℕ
pfcp_ie_up_function_features = 43

abbrev pub pfcp_ie_apply_action : ℕ
pfcp_ie_apply_action = 44

abbrev pub pfcp_ie_pdr_id : ℕ
pfcp_ie_pdr_id = 56

abbrev pub pfcp_ie_fseid : ℕ
pfcp_ie_fseid = 57

abbrev pub pfcp_ie_node_id : ℕ
pfcp_ie_node_id = 60

abbrev pub pfcp_ie_measurement_method : ℕ
pfcp_ie_measurement_method = 62

abbrev pub pfcp_ie_usage_report_trigger : ℕ
pfcp_ie_usage_report_trigger = 63

abbrev pub pfcp_ie_measurement_period : ℕ
pfcp_ie_measurement_period = 64

abbrev pub pfcp_ie_volume_measurement : ℕ
pfcp_ie_volume_measurement = 66

abbrev pub pfcp_ie_usage_report_in_sess_mel_rsp : ℕ
pfcp_ie_usage_report_in_sess_mel_rsp = 79

abbrev pub pfcp_ie_usage_report_in_sess_rpt_req : ℕ
pfcp_ie_usage_report_in_sess_rpt_req = 80

abbrev pub pfcp_ie_urr_id : ℕ
pfcp_ie_urr_id = 81

abbrev pub pfcp_ie_outer_header_creation : ℕ
pfcp_ie_outer_header_creation = 84

abbrev pub pfcp_ie_create_bar : ℕ
pfcp_ie_create_bar = 85

abbrev pub pfcp_ie_cp_function_features : ℕ
pfcp_ie_cp_function_features = 89

abbrev pub pfcp_ie_ue_ip_address : ℕ
pfcp_ie_ue_ip_address = 93

abbrev pub pfcp_ie_outer_header_removal : ℕ
pfcp_ie_outer_header_removal = 95

abbrev pub pfcp_ie_recovery_time_stamp : ℕ
pfcp_ie_recovery_time_stamp = 96

abbrev pub pfcp_ie_ur_seqn : ℕ
pfcp_ie_ur_seqn = 104

abbrev pub pfcp_ie_far_id : ℕ
pfcp_ie_far_id = 108

abbrev pub cause_request_accepted : ℕ
cause_request_accepted = 1

abbrev pub reporting_trigger_perio : ℕ
reporting_trigger_perio = 0x01

abbrev pub reporting_trigger_volth : ℕ
reporting_trigger_volth = 0x02

abbrev pub measurement_method_volum : ℕ
measurement_method_volum = 0x02

abbrev pub volume_threshold_tovol : ℕ
volume_threshold_tovol = 0x01

-- IEs whose value is a list of IEs.
unfoldable pub is_grouped_ie : ℕ → Bool
is_grouped_ie t =
    t == pfcp_ie_create_pdr
    || t == pfcp_ie_create_far
    || t == pfcp_ie_created_pdr
    || t == pfcp_ie_update_pdr
    || t == pfcp_ie_update_far
    || t == pfcp_ie_remove_pdr
    || t == pfcp_ie_remove_far
    || t == pfcp_ie_create_urr
    || t == pfcp_ie_create_qer
    || t == pfcp_ie_create_bar
    || t == pfcp_ie_pdi
