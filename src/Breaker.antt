-- ===== src/Breaker.antt =====
-- The circuit breaker around the gateways' clients (backend/app/utils/circuit_breaker.py).
mod Circuit
mod Bounds
mod Opening
mod Tests
