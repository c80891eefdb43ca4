-- ===== src/Convert/Enums.antt =====
-- toProtoLogLevel of convert.go, toProtoSeverity of severity.go, toProtoAssetType of target_type.go.
-- The SDK's levels, severities and target types are string types, so any text may come.
use rediver_sdk_go.Prelude.{String, str_eq, if◌then◌else◌}
use rediver_sdk_go.Convert.Message.{ProtoSeverity, ProtoLogLevel, ProtoAssetType}

unfoldable pub to_proto_log_level : String → ProtoLogLevel
to_proto_log_level l =
    if str_eq l "debug"
    then ProtoLogLevel.debug
    else if str_eq l "info"
    then ProtoLogLevel.info
    else if str_eq l "warn"
    then ProtoLogLevel.warn
    else if str_eq l "error"
    then ProtoLogLevel.error
    else ProtoLogLevel.unspecified

unfoldable pub to_proto_severity : String → ProtoSeverity
to_proto_severity s =
    if str_eq s "Critical"
    then ProtoSeverity.critical
    else if str_eq s "High"
    then ProtoSeverity.high
    else if str_eq s "Medium"
    then ProtoSeverity.medium
    else if str_eq s "Low"
    then ProtoSeverity.low
    else if str_eq s "Info"
    then ProtoSeverity.info
    else ProtoSeverity.unspecified

unfoldable pub to_proto_asset_type : String → ProtoAssetType
to_proto_asset_type t =
    if str_eq t "Asn"
    then ProtoAssetType.asn
    else if str_eq t "Ip"
    then ProtoAssetType.ip
    else if str_eq t "Subnet"
    then ProtoAssetType.subnet
    else if str_eq t "Subdomain"
    then ProtoAssetType.subdomain
    else if str_eq t "RootDomain"
    then ProtoAssetType.root_domain
    else if str_eq t "Service"
    then ProtoAssetType.service
    else if str_eq t "Repository"
    then ProtoAssetType.repository
    else ProtoAssetType.unspecified

-- The text that the conversion to an asset type reads as it; none for the unspecified one.
abbrev pub asset_type_text : ProtoAssetType → String
asset_type_text ProtoAssetType.asn = "Asn"
asset_type_text ProtoAssetType.ip = "Ip"
asset_type_text ProtoAssetType.subnet = "Subnet"
asset_type_text ProtoAssetType.subdomain = "Subdomain"
asset_type_text ProtoAssetType.root_domain = "RootDomain"
asset_type_text ProtoAssetType.service = "Service"
asset_type_text ProtoAssetType.repository = "Repository"
asset_type_text ProtoAssetType.unspecified = ""
