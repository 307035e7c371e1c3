-- ===== src/Http/Types.antt =====
-- common_utils/http_types.h: requests, responses and status codes. Streams are Http/Streams.
use iexapitest.Base.{Bool, List, Option, Text, TextMap, is_empty, leb, ℕ, ◌&&◌}
use iexapitest.Http.Streams.{Stream}

pub data HttpMethod : Type 0 where
  post get put del : HttpMethod

-- The known codes.
pub data HttpStatusCodes : Type 0 where
  continue switching_protocols processing early_hints ok : HttpStatusCodes
  created accepted non_authoritative_information no_content reset_content : HttpStatusCodes
  partial_content multi_status already_reported im_used multiple_choices : HttpStatusCodes
  moved_permanently found see_other not_modified use_proxy : HttpStatusCodes
  temporary_redirect permanent_redirect bad_request unauthorized payment_required : HttpStatusCodes
  forbidden not_found method_not_allowed not_acceptable proxy_authentication_required :
      HttpStatusCodes
  request_timeout conflict gone length_required precondition_failed : HttpStatusCodes
  payload_too_large uri_too_long unsupported_media_type range_not_satisfiable expectation_failed :
      HttpStatusCodes
  misdirected_request unprocessable_entity locked failed_dependency too_early : HttpStatusCodes
  upgrade_required unassigned precondition_required too_many_requests
        request_header_fields_too_large :
      HttpStatusCodes
  unavailable_for_legal_reasons internal_server_error not_implemented bad_gateway
        service_unavailable :
      HttpStatusCodes
  gateway_timeout http_version_not_supported variant_also_negotiates insufficient_storage
        loop_detected :
      HttpStatusCodes
  not_extended network_authentication_required : HttpStatusCodes

unfoldable pub status_code : HttpStatusCodes → ℕ
status_code HttpStatusCodes.continue = 100
status_code HttpStatusCodes.switching_protocols = 101
status_code HttpStatusCodes.processing = 102
status_code HttpStatusCodes.early_hints = 103
status_code HttpStatusCodes.ok = 200
status_code HttpStatusCodes.created = 201
status_code HttpStatusCodes.accepted = 202
status_code HttpStatusCodes.non_authoritative_information = 203
status_code HttpStatusCodes.no_content = 204
status_code HttpStatusCodes.reset_content = 205
status_code HttpStatusCodes.partial_content = 206
status_code HttpStatusCodes.multi_status = 207
status_code HttpStatusCodes.already_reported = 208
status_code HttpStatusCodes.im_used = 226
status_code HttpStatusCodes.multiple_choices = 300
status_code HttpStatusCodes.moved_permanently = 301
status_code HttpStatusCodes.found = 302
status_code HttpStatusCodes.see_other = 303
status_code HttpStatusCodes.not_modified = 304
status_code HttpStatusCodes.use_proxy = 305
status_code HttpStatusCodes.temporary_redirect = 307
status_code HttpStatusCodes.permanent_redirect = 308
status_code HttpStatusCodes.bad_request = 400
status_code HttpStatusCodes.unauthorized = 401
status_code HttpStatusCodes.payment_required = 402
status_code HttpStatusCodes.forbidden = 403
status_code HttpStatusCodes.not_found = 404
status_code HttpStatusCodes.method_not_allowed = 405
status_code HttpStatusCodes.not_acceptable = 406
status_code HttpStatusCodes.proxy_authentication_required = 407
status_code HttpStatusCodes.request_timeout = 408
status_code HttpStatusCodes.conflict = 409
status_code HttpStatusCodes.gone = 410
status_code HttpStatusCodes.length_required = 411
status_code HttpStatusCodes.precondition_failed = 412
status_code HttpStatusCodes.payload_too_large = 413
status_code HttpStatusCodes.uri_too_long = 414
status_code HttpStatusCodes.unsupported_media_type = 415
status_code HttpStatusCodes.range_not_satisfiable = 416
status_code HttpStatusCodes.expectation_failed = 417
status_code HttpStatusCodes.misdirected_request = 421
status_code HttpStatusCodes.unprocessable_entity = 422
status_code HttpStatusCodes.locked = 423
status_code HttpStatusCodes.failed_dependency = 424
status_code HttpStatusCodes.too_early = 425
status_code HttpStatusCodes.upgrade_required = 426
status_code HttpStatusCodes.unassigned = 427
status_code HttpStatusCodes.precondition_required = 428
status_code HttpStatusCodes.too_many_requests = 429
status_code HttpStatusCodes.request_header_fields_too_large = 431
status_code HttpStatusCodes.unavailable_for_legal_reasons = 451
status_code HttpStatusCodes.internal_server_error = 500
status_code HttpStatusCodes.not_implemented = 501
status_code HttpStatusCodes.bad_gateway = 502
status_code HttpStatusCodes.service_unavailable = 503
status_code HttpStatusCodes.gateway_timeout = 504
status_code HttpStatusCodes.http_version_not_supported = 505
status_code HttpStatusCodes.variant_also_negotiates = 506
status_code HttpStatusCodes.insufficient_storage = 507
status_code HttpStatusCodes.loop_detected = 508
status_code HttpStatusCodes.not_extended = 510
status_code HttpStatusCodes.network_authentication_required = 511

unfoldable pub is_success : ℕ → Bool
is_success code = leb 200 code && leb code 299

-- `request.data` and `ca_cert_bundle` are shared streams, absent where the pointer is null.
pub record HttpRequest : Type 0 where
  pub method : HttpMethod
  pub url : Text
  pub body : Option Stream
  pub headers : TextMap Text
  pub form_data : List (Text × Text)
  pub ca_cert_bundle : Option Stream

-- `response.data`: what has been written to the shared ostream, `none` where the pointer is null.
pub record HttpResponse : Type 0 where
  pub body : Option Text
  pub headers : TextMap Text
  pub status : ℕ

pub record HttpTransactionData : Type 0 where
  pub request : HttpRequest
  pub response : HttpResponse
  pub read_timeout_sec : ℕ
  pub connection_timeout_sec : ℕ

pub record Uri : Type 0 where
  pub protocol : Text
  pub host : Text
  pub port : Text
  pub path : Text
  pub query : Text

pub uri_empty : Uri → Bool
uri_empty u =
    is_empty u.protocol && is_empty u.host && is_empty u.port && is_empty u.path && is_empty u.query
