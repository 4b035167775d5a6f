-- ===== src/NetworkErrors/Infos.antt =====
-- internal/networkerrors/classify.go: the `Info` of each branch of `classifyDesc` and of
-- `classifyConnectError`, around the technical details.
use kiro_gateway_go.Common.{true, false, [], ◌∷◌}
use kiro_gateway_go.Common.Bytes.{Bytes}
use kiro_gateway_go.NetworkErrors.{
  Info, dns_resolution, connection_refused, connection_reset, network_unreachable, timeout_connect,
  timeout_read, ssl_error, proxy_error, too_many_redirects, unknown,
}

unfoldable pub connect_timeout_info : Bytes → Info
connect_timeout_info details = record {
  category = timeout_connect;
  user_message = "Connection timeout - server did not respond to connection attempt.";
  troubleshooting_steps =
      "Check your internet connection speed" ∷ "The server may be overloaded or slow to respond"
      ∷ "Try again in a few moments" ∷ "Check if firewall is delaying connections" ∷ [];
  technical_details = details;
  is_retryable = true;
  suggested_http_code = 504;
}

unfoldable pub read_timeout_info : Bytes → Info
read_timeout_info details = record {
  category = timeout_read;
  user_message = "Read timeout - server stopped responding during data transfer.";
  troubleshooting_steps =
      "The server may be processing a complex request" ∷ "Check your internet connection stability"
      ∷ "Try again with a simpler request" ∷ "The service may be experiencing high load" ∷ [];
  technical_details = details;
  is_retryable = true;
  suggested_http_code = 504;
}

unfoldable pub timeout_info : Bytes → Info
timeout_info details = record {
  category = timeout_read;
  user_message = "Request timeout - operation took too long to complete.";
  troubleshooting_steps =
      "Check your internet connection" ∷ "The server may be slow or overloaded"
      ∷ "Try again in a few moments" ∷ [];
  technical_details = details;
  is_retryable = true;
  suggested_http_code = 504;
}

unfoldable pub redirects_info : Bytes → Info
redirects_info details = record {
  category = too_many_redirects;
  user_message = "Too many redirects - the server is redirecting in a loop.";
  troubleshooting_steps =
      "This is likely a server-side configuration issue"
      ∷ "Try accessing the service directly without the gateway"
      ∷ "Contact the service provider if the issue persists" ∷ [];
  technical_details = details;
  is_retryable = false;
  suggested_http_code = 502;
}

unfoldable pub proxy_info : Bytes → Info
proxy_info details = record {
  category = proxy_error;
  user_message = "Proxy connection failed - cannot connect through the configured proxy.";
  troubleshooting_steps =
      "Check proxy configuration (HTTP_PROXY, HTTPS_PROXY environment variables)"
      ∷ "Verify proxy server is accessible" ∷ "Try disabling proxy temporarily"
      ∷ "Check proxy authentication credentials if required" ∷ [];
  technical_details = details;
  is_retryable = true;
  suggested_http_code = 502;
}

unfoldable pub request_info : Bytes → Info
request_info details = record {
  category = unknown;
  user_message = "Network request failed due to an unexpected error.";
  troubleshooting_steps =
      "Check your internet connection" ∷ "Verify firewall/antivirus settings"
      ∷ "Try again in a few moments" ∷ "Check the debug logs for more details" ∷ [];
  technical_details = details;
  is_retryable = true;
  suggested_http_code = 502;
}

unfoldable pub other_info : Bytes → Info
other_info details = record {
  category = unknown;
  user_message = "An unexpected error occurred.";
  troubleshooting_steps =
      "Check the debug logs for details" ∷ "Try again in a few moments"
      ∷ "Report this issue if it persists" ∷ [];
  technical_details = details;
  is_retryable = true;
  suggested_http_code = 500;
}

unfoldable pub dns_info : Bytes → Info
dns_info details = record {
  category = dns_resolution;
  user_message = "DNS resolution failed - cannot resolve the provider's domain name.";
  troubleshooting_steps =
      "Check your internet connection"
      ∷ "Try changing DNS servers to Google DNS (8.8.8.8, 8.8.4.4) or Cloudflare (1.1.1.1, 1.0.0.1)"
      ∷ "Temporarily disable VPN if you're using one"
      ∷ "Check if firewall/antivirus is blocking DNS requests"
      ∷ "Verify the domain name is correct and the service is operational" ∷ [];
  technical_details = details;
  is_retryable = true;
  suggested_http_code = 502;
}

unfoldable pub refused_info : Bytes → Info
refused_info details = record {
  category = connection_refused;
  user_message = "Connection refused - the server is not accepting connections.";
  troubleshooting_steps =
      "The service may be temporarily down" ∷ "Check if the service is running and accessible"
      ∷ "Verify firewall is not blocking the connection" ∷ "Try again in a few moments" ∷ [];
  technical_details = details;
  is_retryable = true;
  suggested_http_code = 502;
}

unfoldable pub reset_info : Bytes → Info
reset_info details = record {
  category = connection_reset;
  user_message = "Connection reset - the server closed the connection unexpectedly.";
  troubleshooting_steps =
      "This is usually a temporary server issue" ∷ "Try again in a few moments"
      ∷ "Check if VPN/proxy is interfering with the connection" ∷ "Verify network stability" ∷ [];
  technical_details = details;
  is_retryable = true;
  suggested_http_code = 502;
}

unfoldable pub unreachable_info : Bytes → Info
unreachable_info details = record {
  category = network_unreachable;
  user_message = "Network unreachable - cannot reach the server's network.";
  troubleshooting_steps =
      "Check your internet connection" ∷ "Verify network adapter is enabled and working"
      ∷ "Check routing table if using VPN" ∷ "Try disabling VPN temporarily"
      ∷ "Restart network adapter or router" ∷ [];
  technical_details = details;
  is_retryable = true;
  suggested_http_code = 502;
}

unfoldable pub ssl_info : Bytes → Info
ssl_info details = record {
  category = ssl_error;
  user_message = "SSL/TLS error - secure connection could not be established.";
  troubleshooting_steps =
      "Check system date and time (incorrect time causes SSL errors)"
      ∷ "Update SSL certificates on your system"
      ∷ "Check if antivirus/firewall is intercepting HTTPS traffic"
      ∷ "Verify the server's SSL certificate is valid" ∷ [];
  technical_details = details;
  is_retryable = false;
  suggested_http_code = 502;
}

unfoldable pub connect_info : Bytes → Info
connect_info details = record {
  category = unknown;
  user_message = "Connection failed - unable to establish connection to the server.";
  troubleshooting_steps =
      "Check your internet connection" ∷ "Verify firewall/antivirus settings"
      ∷ "Try disabling VPN temporarily" ∷ "Check if the service is accessible from other devices"
      ∷ [];
  technical_details = details;
  is_retryable = true;
  suggested_http_code = 502;
}
